-- ===== src/AudioBank/Tests.antt =====
-- Runs of the bank with items of 4 bytes, and instances of its theorems.
use skype.Common.{◌≡◌, refl, [], ◌∷◌, codes, arith}
use skype.AudioBank.{AudioBank, load, grab, copy_data, load_rest, push_if_full}
use skype.AudioBank.Content.{IsBank, content, load-content, grab-content}

abbrev bank : AudioBank
bank = record { store = codes "abcd" ∷ []; item = codes "efg" }

bank-IsBank : IsBank 4 bank
bank-IsBank = record { complete = (refl, tt); fits = omega arith }

load_run :
    load 4 (codes "hij") bank
    ≡ record { store = codes "abcd" ∷ codes "efgh" ∷ []; item = codes "ij" }
unfolding load copy_data load_rest push_if_full
load_run = refl

load-content_example :
    IsBank 4 (load 4 (codes "hij") bank)
    × (content (load 4 (codes "hij") bank) ≡ codes "abcdefghij")
load-content_example = load-content 4 (codes "hij") bank bank-IsBank (omega arith)

grab-content_example :
    IsBank 4 (grab bank).1 × ((grab bank).0 ≡ codes "abcd") × (content (grab bank).1 ≡ codes "efg")
grab-content_example = grab-content 4 bank bank-IsBank (λ e. cc)
