-- ===== src/AudioQueue.antt =====
-- src/client/av/lock_free_audio_queue.cpp: a queue between one thread that pushes and one that pops,
-- as the steps of both in any order. A node's address is the number of its allocation, and a step is
-- one access to what the threads share.
mod Chain
mod Holds
mod Fifo
mod Order
mod Safety
mod Tests
use skype.Common.{
  ℕ, suc, Bool, true, false, ◌≡◌, ◌≢◌, ◌==◌, Option, none, some, List, [], ◌∷◌, ◌++◌, if◌then◌else◌,
}

-- `alive` is false once the node is deleted.
pub record Node (A : Type 0) : Type 0 where
  pub audio : Option A
  pub next : Option ℕ
  pub alive : Bool

-- Where a thread stands in `push`: it has allocated the node, loaded `m_tail`, swapped the package in,
-- written `m_next`.
pub data Producer (A : Type 0) : Type 0 where
  resting : Producer A
  allocated : A → ℕ → Producer A
  loaded : A → ℕ → ℕ → Producer A
  filled : A → ℕ → ℕ → Producer A
  linked : A → ℕ → Producer A

-- Where the other stands in `pop`: it has loaded `m_head`, compared it with `m_tail`, stored the next
-- node, read the package.
pub data Consumer (A : Type 0) : Type 0 where
  waiting : Consumer A
  looking : ℕ → Consumer A
  holding : ℕ → Consumer A
  taking : ℕ → Consumer A
  copied : ℕ → Consumer A

pub record Queue (A : Type 0) : Type 0 where
  pub node : ℕ → Node A
  pub head : ℕ
  pub tail : ℕ
  pub fresh : ℕ
  pub producer : Producer A
  pub consumer : Consumer A

-- What the callers see of a step: a push that is done, the package that a pop returns, and a pop that
-- finds nothing.
pub data Effect (A : Type 0) : Type 0 where
  silent : Effect A
  pushes : A → Effect A
  pops : Option A → Effect A
  misses : Effect A

module _ {A : Type 0} where
  abbrev pub write : ℕ → Node A → (ℕ → Node A) → ℕ → Node A
  write i n node j = if j == i then n else node j

  abbrev pub new_node : Node A
  new_node = record { audio = none; next = none; alive = true }

  -- The constructor: one node without a package is head and tail.
  abbrev pub new_queue : (ℕ → Node A) → Queue A
  new_queue memory = record {
    node = write 0 new_node memory;
    head = 0;
    tail = 0;
    fresh = 1;
    producer = resting;
    consumer = waiting;
  }

  unfoldable pub is_empty : Queue A → Bool
  is_empty q = q.head == q.tail

  pub data Push (q : Queue A) : Effect A → Queue A → Type 0 where
    allocate :
        (x : A)
        → q.producer ≡ resting
        → Push q silent (record q {
          node = write q.fresh new_node q.node;
          fresh = suc q.fresh;
          producer = allocated x q.fresh;
        })
    load_tail :
        (x : A) (n : ℕ)
        → q.producer ≡ allocated x n
        → Push q silent (record q { producer = loaded x n q.tail })
    fill :
        (x : A) (n o : ℕ)
        → q.producer ≡ loaded x n o
        → Push q silent (record q {
          node = write o (record (q.node o) { audio = some x }) q.node;
          producer = filled x n o;
        })
    link :
        (x : A) (n o : ℕ)
        → q.producer ≡ filled x n o
        → Push q silent (record q {
          node = write o (record (q.node o) { next = some n }) q.node;
          producer = linked x n;
        })
    publish :
        (x : A) (n : ℕ)
        → q.producer ≡ linked x n
        → Push q (pushes x) (record q { tail = n; producer = resting })

  pub data Pop (q : Queue A) : Effect A → Queue A → Type 0 where
    load_head : q.consumer ≡ waiting → Pop q silent (record q { consumer = looking q.head })
    find_none :
        (o : ℕ)
        → q.consumer ≡ looking o
        → o ≡ q.tail
        → Pop q misses (record q { consumer = waiting })
    find_some :
        (o : ℕ)
        → q.consumer ≡ looking o
        → o ≢ q.tail
        → Pop q silent (record q { consumer = holding o })
    advance :
        (o n : ℕ)
        → q.consumer ≡ holding o
        → (q.node o).next ≡ some n
        → Pop q silent (record q { head = n; consumer = taking o })
    copy :
        (o : ℕ)
        → q.consumer ≡ taking o
        → Pop q (pops (q.node o).audio) (record q { consumer = copied o })
    delete :
        (o : ℕ)
        → q.consumer ≡ copied o
        → Pop q silent (record q {
          node = write o (record (q.node o) { alive = false }) q.node;
          consumer = waiting;
        })

  -- Steps of the two threads one after another, with what the callers see.
  pub data Run (q : Queue A) : List (Effect A) → Queue A → Type 0 where
    start : Run q [] q
    push :
        {es : List (Effect A)} {r t : Queue A} {e : Effect A}
        → Run q es r
        → Push r e t
        → Run q (es ++ e ∷ []) t
    pop :
        {es : List (Effect A)} {r t : Queue A} {e : Effect A}
        → Run q es r
        → Pop r e t
        → Run q (es ++ e ∷ []) t
