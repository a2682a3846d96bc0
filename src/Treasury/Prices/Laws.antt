-- ===== src/Treasury/Prices/Laws.antt =====
-- The prices that are kept are those that the service quotes for the known tokens.
use ic_govmind.Base.{
  ◌≡◌, ◌∙◌, refl, ap, true, false, Option, none, some, List, [], ◌∷◌, Outcome, returns, Bool-cases,
  inl, inr, if◌then◌else◌,
}
use ic_govmind.Js.Text.{Text, codes, text_eq, is_empty, join}
use ic_govmind.Js.Text.Laws.{eq_of_text_eq}
use ic_govmind.Js.Value.{Value, obj, Fields, prop, get_field, optional_prop}
use ic_govmind.Treasury.Prices.{
  find_entry, coingecko_ids, known_ids, price_url, number_in, quoted, with_price, prices_of,
  query_token_prices,
}

abbrev IsDistinct : List (Text × Text) → Type 0
IsDistinct [] = Unit
IsDistinct ((k, id) ∷ entries) = (find_entry k entries ≡ none) × IsDistinct entries

module _ {N : Type 0} where
  -- The number that an answer has for an identifier.
  abbrev pub quote_of : Fields N → Option Text → Option N
  quote_of fs none = none
  quote_of fs (some id) = number_in (optional_prop (codes "usd") (get_field id fs))

  find-with_price :
      (symbol s : Text) (price : Option N) (prices : List (Text × N))
      → (text_eq symbol s ≡ true → find_entry s prices ≡ none)
      → find_entry s (with_price symbol price prices)
        ≡ (if text_eq symbol s then price else find_entry s prices)
  unfolding find_entry
  find-with_price symbol s (some p) prices h = refl
  find-with_price symbol s none prices h = elim (Bool-cases (text_eq symbol s)) [
    | inl same ↦ rw same (h same)
    | inr other ↦ rw other refl
  ]

  prices_of_lem :
      (fs : Fields N) (entries : List (Text × Text))
      → IsDistinct entries
      → (ps : List (Text × N)) × (prices_of (obj fs) entries ≡ returns ps)
        × ((s : Text) → find_entry s ps ≡ quote_of fs (find_entry s entries))
  unfolding prices_of quoted prop find_entry
  prices_of_lem fs [] h = ([], refl, λ s. refl)
  prices_of_lem fs ((symbol, id) ∷ entries) (fresh, h) =
      let (ps, made, found) = prices_of_lem fs entries h in
      (
        with_price symbol (quote_of fs (some id)) ps,
        rw made refl,
        λ s.
            find-with_price symbol s (quote_of fs (some id)) ps
              (λ same. found s ∙ ap (quote_of fs) (rw (eq_of_text_eq symbol s same) at fresh))
            ∙ choose s (found s),
      )
    where
      choose :
          (s : Text) {rest : Option N}
          → rest ≡ quote_of fs (find_entry s entries)
          → (if text_eq symbol s then quote_of fs (some id) else rest)
            ≡ quote_of fs (if text_eq symbol s then some id else find_entry s entries)
      choose s e = elim (Bool-cases (text_eq symbol s)) [
        | inl same ↦ rw same refl
        | inr other ↦ rw other e
      ]

  -- With an answer that is an object, the query gives each symbol the number that the answer has
  -- under the token's identifier, and no price to a symbol that is not known or has no number.
  pub query_token_prices_lem :
      (fetch_json : Text → Outcome (Value N)) (symbols : List Text) (fs : Fields N)
      → is_empty (join (codes ",") (known_ids symbols)) ≡ false
      → fetch_json (price_url (join (codes ",") (known_ids symbols))) ≡ returns (obj fs)
      → (ps : List (Text × N)) × (query_token_prices fetch_json symbols ≡ returns ps)
        × ((s : Text) → find_entry s ps ≡ quote_of fs (find_entry s coingecko_ids))
  unfolding query_token_prices find_entry text_eq
  query_token_prices_lem fetch_json symbols fs asked answered =
      let (ps, made, found) = prices_of_lem fs coingecko_ids (refl, (refl, (refl, (refl, tt)))) in
      (ps, rw (asked, answered, made) refl, found)
