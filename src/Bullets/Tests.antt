-- ===== src/Bullets/Tests.antt =====
-- Texts with numbered points.
use ic_govmind.Base.{◌+◌, ◌++◌, map, ◌≡◌, refl, [], ◌∷◌}
use ic_govmind.Js.Text.{Text, codes, trim, trim_start, trim_end, is_digit, is_space}
use ic_govmind.Js.Decimal.{decimal}
use ic_govmind.Bullets.Runs.{IsPoint, NoDigit, IsSpaces}
use ic_govmind.Bullets.Laws.{Point, text_of, numbered, format_dotted-numbered, format_dotted-loses}
use ic_govmind.Bullets.Bracketed.{bracketed, format_bracketed-bracketed}
use ic_govmind.Bullets.{numbered_from, listed, unchanged, format_dotted, format_bracketed}

runs : Unit {0}
unfolding format_dotted format_bracketed trim decimal trim_start trim_end is_digit is_space
runs = tt

two_points :
    format_dotted (codes "Risks: 1. Cost 2. Delay ")
    ≡ listed (
        (record { number = 1; content = codes "Cost" })
        ∷ (record { number = 2; content = codes "Delay" })
        ∷ [])
unfolding runs
two_points = refl

-- A point that mentions a number is left out of the list.
a_point_is_lost :
    format_dotted (codes "1. Cost 2. Pays 5 ICP 3. Delay")
    ≡ listed (
        (record { number = 1; content = codes "Cost" })
        ∷ (record { number = 2; content = codes "Delay" })
        ∷ [])
unfolding runs
a_point_is_lost = refl

two_bracketed :
    format_bracketed (codes "(1) Cost (2) Delay")
    ≡ listed (
        (record { number = 1; content = codes "Cost" })
        ∷ (record { number = 2; content = codes "Delay" })
        ∷ [])
unfolding runs
two_bracketed = refl

by_sentences :
    format_bracketed (codes "1. Budget 2. Delays")
    ≡ listed (
        (record { number = 1; content = codes "Budget" })
        ∷ (record { number = 2; content = codes "Delays" })
        ∷ [])
unfolding runs
by_sentences = refl

no_points : format_dotted (codes "All is well in 2024") ≡ unchanged (codes "All is well in 2024")
unfolding runs
no_points = refl

cost-IsPoint : IsPoint b'C' (codes "ost")
unfolding runs
cost-IsPoint = record { no_digit = (refl, (refl, (refl, (refl, tt)))); starts = refl; ends = refl }

delay-IsPoint : IsPoint b'D' (codes "elay")
unfolding runs
delay-IsPoint = record {
  no_digit = (refl, (refl, (refl, (refl, (refl, tt)))));
  starts = refl;
  ends = refl;
}

abbrev cost : Point
cost = (b'C', codes "ost")

abbrev delay : Point
delay = (b'D', codes "elay")

abbrev space : Text
space = codes " "

space-IsSpaces : IsSpaces space
unfolding runs
space-IsSpaces = (refl, tt)

abbrev intro : Text
intro = codes "As: "

intro-NoDigit : NoDigit intro
unfolding runs
intro-NoDigit = (refl, (refl, (refl, (refl, tt))))

format_dotted-numbered_example :
    format_dotted (intro ++ numbered space 1 (cost ∷ delay ∷ []))
    ≡ listed (numbered_from 0 (map text_of (cost ∷ delay ∷ [])))
format_dotted-numbered_example =
    format_dotted-numbered space intro space-IsSpaces intro-NoDigit 1 cost delay []
      (cost-IsPoint, (delay-IsPoint, tt))

-- "As: (1) Cost (2) Delay "
format_bracketed-bracketed_sample :
    format_bracketed ((intro ++ b'(' ∷ []) ++ bracketed space 1 (cost ∷ delay ∷ []))
    ≡ listed (numbered_from 0 (map text_of (cost ∷ delay ∷ [])))
format_bracketed-bracketed_sample =
    format_bracketed-bracketed space intro space-IsSpaces intro-NoDigit 1 cost delay []
      (cost-IsPoint, (delay-IsPoint, tt))

pays-NoDigit : NoDigit (codes " Pays ") × NoDigit (codes " ICP ")
unfolding runs
pays-NoDigit =
    ((refl, (refl, (refl, (refl, (refl, (refl, tt)))))), (refl, (refl, (refl, (refl, (refl, tt))))))

-- "As: 1. Cost 2. Pays 5 ICP 3. Delay "
format_dotted-loses_example :
    format_dotted (
      intro
      ++ (decimal 1
          ++ (b'.'
              ∷ ((b' ' ∷ (text_of cost ++ space))
                  ++ (decimal (1 + 1)
                      ++ (b'.'
                          ∷ (codes " Pays "
                              ++ (decimal 5
                                  ++ (codes " ICP " ++ numbered space (1 + 2) (delay ∷ []))))))))))
    ≡ listed (numbered_from 0 (text_of cost ∷ text_of delay ∷ []))
format_dotted-loses_example =
    format_dotted-loses space intro space-IsSpaces intro-NoDigit 1 5 cost delay (codes " Pays ")
      b' ' (codes "ICP ") (cost-IsPoint, (delay-IsPoint, tt)) pays-NoDigit.0 pays-NoDigit.1 refl
