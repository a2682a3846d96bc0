-- ===== src/Members/Laws.antt =====
-- The tokens of a member: nothing is lost by sorting, and what is not free is pending.
use ic_govmind.Base.{ℕ, ◌+◌, ◌*◌, ◌≤◌, ◌≡◌, ◌∙◌, refl, false, some, List, [], ◌∷◌, ltb, keep, arith}
use ic_govmind.Js.Text.{Text, text_eq, is_empty}
use ic_govmind.Members.{
  Unlock, insert_by, sort_by, get_member_unlock_schedule, get_total_locked_tokens,
  get_available_tokens, pending_tokens,
}

total-insert_by :
    (number : ℕ → ℕ) (x : Unlock) (ys : List Unlock)
    → get_total_locked_tokens (insert_by number x ys) ≡ x.amount + get_total_locked_tokens ys
unfolding insert_by get_total_locked_tokens
total-insert_by number x [] = refl
total-insert_by number x (y ∷ ys) = ground (arith, total-insert_by number x ys)

total-sort_by :
    (number : ℕ → ℕ) (xs : List Unlock)
    → get_total_locked_tokens (sort_by number xs) ≡ get_total_locked_tokens xs
unfolding sort_by get_total_locked_tokens
total-sort_by number [] = refl
total-sort_by number (x ∷ xs) =
    total-insert_by number x (sort_by number xs) ∙ omega (arith, total-sort_by number xs)

-- The sum of the amounts that come free after `now`.
pub later_tokens : ℕ → List Unlock → ℕ
later_tokens now xs = get_total_locked_tokens (keep (λ x. ltb (now * 1000000) x.timestamp) xs)

available-le-total :
    (now : ℕ) (xs : List Unlock)
    → get_available_tokens now xs + later_tokens now xs ≡ get_total_locked_tokens xs
unfolding later_tokens get_available_tokens get_total_locked_tokens
available-le-total now [] = refl
available-le-total now (x ∷ xs) = ground (arith, available-le-total now xs)

available_mono :
    (now later : ℕ) (xs : List Unlock)
    → now ≤ later
    → get_available_tokens now xs ≤ get_available_tokens later xs
unfolding get_available_tokens
available_mono now later [] h = omega arith
available_mono now later (x ∷ xs) h = ground (arith, available_mono now later xs h)

-- Of a schedule, the free tokens are never more than all, what is pending is the sum of the amounts
-- that come free later, and as time goes on no free token becomes locked.
pub pending_tokens-later_tokens :
    (now later : ℕ) (xs : List Unlock)
    → now ≤ later
    → (get_available_tokens now xs ≤ get_total_locked_tokens xs)
      × (pending_tokens now xs ≡ later_tokens now xs)
      × (get_available_tokens now xs ≤ get_available_tokens later xs)
unfolding pending_tokens
pending_tokens-later_tokens now later xs h =
    let split = available-le-total now xs in
    (omega arith, omega arith, available_mono now later xs h)

-- The schedule of a member holds as much as the items of the whole schedule that name its
-- principal: sorting loses nothing and adds nothing, whatever the rounding of the times.
pub total-get_member_unlock_schedule :
    (number : ℕ → ℕ) (schedule : List Unlock) (principal : Text)
    → is_empty principal ≡ false
    → get_total_locked_tokens
        (get_member_unlock_schedule number (some (some schedule)) (some principal))
      ≡ get_total_locked_tokens (keep (λ item. text_eq item.addr principal) schedule)
unfolding get_member_unlock_schedule
total-get_member_unlock_schedule number schedule principal h = rw h (total-sort_by number _)
