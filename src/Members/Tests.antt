-- ===== src/Members/Tests.antt =====
-- A schedule of two members, and the theorems at it.
use ic_govmind.Base.{ℕ, ◌≡◌, ◌≤◌, refl, some, List, [], ◌∷◌, keep, arith}
use ic_govmind.Js.Text.{Text, codes, text_eq}
use ic_govmind.Members.{
  Unlock, get_member_unlock_schedule, get_total_locked_tokens, get_available_tokens, pending_tokens,
}
use ic_govmind.Members.Laws.{
  later_tokens, pending_tokens-later_tokens, total-get_member_unlock_schedule,
}

abbrev item : Text → ℕ → ℕ → Unlock
item addr timestamp amount = record { addr = addr; timestamp = timestamp; amount = amount }

abbrev schedule : List Unlock
schedule = item (codes "a") 9000000 5 ∷ item (codes "b") 2000000 7 ∷ item (codes "a") 1000000 4 ∷ []

sorted :
    get_member_unlock_schedule (λ n. n) (some (some schedule)) (some (codes "a"))
    ≡ item (codes "a") 1000000 4 ∷ item (codes "a") 9000000 5 ∷ []
unfolding get_member_unlock_schedule text_eq
sorted = refl

free : get_available_tokens 2 schedule ≡ 11
unfolding get_available_tokens
free = refl

pending_tokens-later_tokens_example :
    (get_available_tokens 2 schedule ≤ get_total_locked_tokens schedule)
    × (pending_tokens 2 schedule ≡ later_tokens 2 schedule)
    × (get_available_tokens 2 schedule ≤ get_available_tokens 3 schedule)
pending_tokens-later_tokens_example = pending_tokens-later_tokens 2 3 schedule (omega arith)

total-get_member_unlock_schedule_example :
    get_total_locked_tokens
      (get_member_unlock_schedule (λ n. n) (some (some schedule)) (some (codes "a")))
    ≡ get_total_locked_tokens (keep (λ item. text_eq item.addr (codes "a")) schedule)
total-get_member_unlock_schedule_example =
    total-get_member_unlock_schedule (λ n. n) schedule (codes "a") refl
