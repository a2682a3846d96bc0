-- ===== src/Committees/Tests.antt =====
-- A committee that is opened for a change, and the theorems at it.
use ic_govmind.Base.{false, ◌≡◌, refl, true, some, [], ◌∷◌, map, returns, arith}
use ic_govmind.Js.Text.{Text, codes, trim, split, join, text_eq, is_space}
use ic_govmind.Committees.Kinds.{treasury, technical, committee_type_to_variant}
use ic_govmind.Committees.Form.{
  Principals, Doubles, Committee, listed, initial_tab, parse_members, update_arg,
  handle_start_update_committee, responsibilities_text,
}
use ic_govmind.Committees.Form.Laws.{
  IsReadable, IsLine, parse_members-join, update_arg-handle_start_update_committee,
}

abbrev texts : Principals Text
texts = record { from_text = returns; to_text = λ t. t }

abbrev exact : Doubles
exact = record { round = returns; round_exact = λ n h. refl }

abbrev committee : Committee Text
committee = record {
  id = 4;
  committee_type = treasury;
  term_duration_secs = 900000;
  members = codes "ab" ∷ codes "cd" ∷ [];
  active = some (false ∷ []);
  responsibilities = listed (codes "audits" ∷ []);
}

splits : parse_members texts (codes "ab, cd\n\n ef,") ≡ codes "ab" ∷ codes "cd" ∷ codes "ef" ∷ []
unfolding parse_members trim split is_space
splits = refl

kinds : committee_type_to_variant (codes "Treasury") ≡ treasury
unfolding committee_type_to_variant text_eq
kinds = refl

readable : (s : Text) → IsLine s → IsReadable texts s
readable s h = (h, refl)

ab-IsLine : IsLine (codes "ab")
unfolding is_space
ab-IsLine = record {
  given = refl;
  no_space = (refl, (refl, tt));
  no_comma = (omega arith, (omega arith, tt));
}

cd-IsLine : IsLine (codes "cd")
unfolding is_space
cd-IsLine = record {
  given = refl;
  no_space = (refl, (refl, tt));
  no_comma = (omega arith, (omega arith, tt));
}

parse_members-join_example :
    parse_members texts (join (codes "\n") (map texts.to_text committee.members))
    ≡ committee.members
parse_members-join_example =
    parse_members-join texts committee.members
      (readable (codes "ab") ab-IsLine, (readable (codes "cd") cd-IsLine, tt))

update_arg-handle_start_update_committee_example :
    update_arg texts exact (handle_start_update_committee texts committee initial_tab)
    ≡ returns (record {
      committee_type = technical;
      members = committee.members;
      term_duration_secs = 864000;
      active = true;
      responsibilities = responsibilities_text committee.responsibilities;
    })
update_arg-handle_start_update_committee_example =
    update_arg-handle_start_update_committee texts exact initial_tab committee
      (readable (codes "ab") ab-IsLine, (readable (codes "cd") cd-IsLine, tt)) (omega arith)
