-- ===== src/Client/Stuck.antt =====
-- A client of src/client/client.cpp whose request is not valid any more.
use skype.Common.{Bool, true, false, All, ◌≡◌, refl, Option, none, some, List, [], Bytes}
use skype.Client.{
  Link, Details, Job, JobType, connect, awaiting, accept, reject, hangup, cleanup, exchange,
  set_data,
}
use skype.Client.Accounts
use skype.Client.Contacts
use skype.Client.Chats
use skype.Client.Accounts.{Accounts}
use skype.Client.Jobs.{Client, Called, Handled}
use skype.Client.Bus.{Bus, Loop}

-- The jobs that go to src/client/user/call.cpp.
abbrev pub is_call : JobType → Bool
is_call connect = true
is_call awaiting = true
is_call accept = true
is_call reject = true
is_call hangup = true
is_call cleanup = true
is_call _ = false

abbrev pub NoCalls : List Job → Type 0
NoCalls js = All (λ (j : Job). is_call j.command ≡ false) js

module _ {S : Type 0} (server : Bytes → S → Option Bytes × S) where
  pub exchange_stuck :
      (command : Bytes) (l : Link) (s : S)
      → l.valid ≡ false
      → exchange server command l s ≡ (set_data command l, s)
  unfolding exchange
  exchange_stuck command l s h = rw (h, exchange) refl

  abbrev LeavesServer : S → Link × S → Type 0
  LeavesServer s after = (after.1 ≡ s) × (after.0.valid ≡ false)

  -- Nothing is posted either.
  abbrev PostsNothing : S → Contacts.After server → Type 0
  PostsNothing s ((m, posted), after) = LeavesServer s after × (posted ≡ [])

  -- The server has not been asked, the link is as useless as before, and no job is posted.
  abbrev pub IsStuck : S → Option (Handled S) → Type 0
  IsStuck s none = Unit
  IsStuck s (some h) = ((h.server ≡ s) × (h.client.link.valid ≡ false)) × (h.posted ≡ [])

  module _ (blank : Details) (call : JobType → Job → S → Called S) where
    -- After a round: the server is as before, and what is left in the queue is no job of a call.
    abbrev Remains : S → Loop server blank call → Type 0
    Remains s loop = (loop.state ≡ s) × (loop.client.link.valid ≡ false) × NoCalls loop.bus.jobs
