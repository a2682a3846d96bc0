-- ===== src/Formatters/Tests.antt =====
-- Short forms of some texts, and the theorem about their lengths.
use ic_govmind.Base.{◌+◌, ◌≤◌, ◌≡◌, refl, none, some, [], length, arith}
use ic_govmind.Js.Text.{codes, trim, is_space, slice_last}
use ic_govmind.Js.Decimal.{decimal}
use ic_govmind.Formatters.{format_principal_short, format_member_display_id, shorten_id}
use ic_govmind.Formatters.Laws.{length-format_principal_short}

shorts :
    (format_principal_short (some (codes " 2vxsx-fae-cai-77777 ")) 8 4 ≡ codes "2vxsx-fa…7777")
    × (shorten_id (codes "abcdefghijklmnop") 6 6 ≡ codes "abcdef...klmnop")
    × (format_member_display_id none (some []) 2 ≡ codes "member-3")
unfolding format_principal_short shorten_id format_member_display_id trim is_space slice_last
    decimal
shorts = (refl, refl, refl)

length-format_principal_short_sample :
    (length (format_principal_short (some (codes "2vxsx-fae-cai-77777")) 8 4) ≤ 8 + (1 + 4))
    × (length (shorten_id (codes "abcdefghijklmnop") 8 4) ≤ 8 + (3 + 4))
length-format_principal_short_sample =
    length-format_principal_short (some (codes "2vxsx-fae-cai-77777")) (codes "abcdefghijklmnop") 8
      4 (omega arith)
