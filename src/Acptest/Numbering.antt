-- ===== src/Acptest/Numbering.antt =====
-- The numbers of the driver's messages, and the ranges that `messagesInRange` takes out.
use go_acp_server.Base.{ℕ, zero, suc, ◌+◌, ◌≤◌, List, [], ◌∷◌, ◌++◌, ◌≡◌, refl, ap, arith, length}
use go_acp_server.Acptest.Payload.{Message, kept_in_range, messages_in_range}

-- The messages have the numbers that follow `n`, in their order.
abbrev pub Numbered : ℕ → List Message → Type 0
Numbered n [] = Unit
Numbered n (msg ∷ msgs) = (msg.seq ≡ n + 1) × Numbered (n + 1) msgs

pub Numbered-snoc :
    (n : ℕ) (msgs : List Message) (msg : Message)
    → Numbered n msgs
    → msg.seq ≡ n + length msgs + 1
    → Numbered n (msgs ++ msg ∷ [])
Numbered-snoc n [] msg h e = (omega (arith, e), tt)
Numbered-snoc n (x ∷ xs) msg (q, h) e = (q, Numbered-snoc (n + 1) xs msg h (omega (arith, e)))

-- The messages behind the first `k`, and the first `k`.
abbrev pub drop : ℕ → List Message → List Message
drop zero msgs = msgs
drop (suc k) [] = []
drop (suc k) (msg ∷ msgs) = drop k msgs

abbrev pub take : ℕ → List Message → List Message
take zero msgs = []
take (suc k) [] = []
take (suc k) (msg ∷ msgs) = msg ∷ take k msgs

pub take-drop : (k : ℕ) (msgs : List Message) → take k msgs ++ drop k msgs ≡ msgs
take-drop zero msgs = refl
take-drop (suc k) [] = refl
take-drop (suc k) (msg ∷ msgs) = ap (◌∷◌ msg) (take-drop k msgs)

pub drop-Numbered :
    (k n m : ℕ) (msgs : List Message) → m ≡ n + k → Numbered n msgs → Numbered m (drop k msgs)
drop-Numbered zero n m msgs e h = let e' : n ≡ m = omega (arith, e) in rw (← e') h
drop-Numbered (suc k) n m [] e h = tt
drop-Numbered (suc k) n m (msg ∷ msgs) e (q, h) =
    drop-Numbered k (n + 1) m msgs (omega (arith, e)) h

pub take-Numbered : (k n : ℕ) (msgs : List Message) → Numbered n msgs → Numbered n (take k msgs)
take-Numbered zero n msgs h = tt
take-Numbered (suc k) n [] h = tt
take-Numbered (suc k) n (msg ∷ msgs) (q, h) = (q, take-Numbered k (n + 1) msgs h)

-- Behind the range nothing is kept.
kept-beyond :
    (lo hi n : ℕ) (msgs : List Message) → Numbered n msgs → hi ≤ n → kept_in_range lo hi msgs ≡ []
unfolding kept_in_range
kept-beyond lo hi n [] h b = refl
kept-beyond lo hi n (msg ∷ msgs) (q, h) b = ground (arith, q, kept-beyond lo hi (n + 1) msgs h)

-- From the start of the range on, so many are kept.
kept-within :
    (lo hi n k : ℕ) (msgs : List Message)
    → hi ≡ n + k
    → Numbered n msgs
    → lo ≤ n + 1
    → kept_in_range lo hi msgs ≡ take k msgs
unfolding kept_in_range
kept-within lo hi n zero msgs e h b = kept-beyond lo hi n msgs h (omega (arith, e))
kept-within lo hi n (suc k) [] e h b = refl
kept-within lo hi n (suc k) (msg ∷ msgs) e (q, h) b =
    ground (arith, e, q, kept-within lo hi (n + 1) k msgs)

-- Before the range nothing is kept.
kept-before :
    (j n lo hi : ℕ) (msgs : List Message)
    → lo ≡ n + j + 1
    → Numbered n msgs
    → kept_in_range lo hi msgs ≡ kept_in_range lo hi (drop j msgs)
unfolding kept_in_range
kept-before zero n lo hi msgs e h = refl
kept-before (suc j) n lo hi [] e h = refl
kept-before (suc j) n lo hi (msg ∷ msgs) e (q, h) =
    ground (arith, e, q, kept-before j (n + 1) lo hi msgs)

-- On messages that are numbered from 1 on, `messagesInRange` is a slice.
pub messages_in_range-slice :
    (msgs : List Message) (before count : ℕ)
    → Numbered 0 msgs
    → messages_in_range msgs (before + 1) (before + count) ≡ take count (drop before msgs)
unfolding messages_in_range
messages_in_range-slice msgs before zero h = ground arith
messages_in_range-slice msgs before (suc count) h = ground (
  arith,
  kept-before before 0 (before + 1) (before + suc count) msgs,
  kept-within (before + 1) (before + suc count) before (suc count) (drop before msgs),
  drop-Numbered before 0 before msgs,
)
