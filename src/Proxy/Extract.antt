-- ===== src/Proxy/Extract.antt =====
-- src/ic_govmind_api_proxy/server.js: the head that the four `parse…Response` functions share,
-- which cuts the JSON object out of what the model answered.
pub mod Surrounded
use ic_govmind.Base.{ℕ, suc, ◌+◌, ◌≡◌, refl, Option, none, some, ltb, if◌then◌else◌}
use ic_govmind.Js.Text.{
  Text, codes, trim, trim_start, trim_end, strip_prefix, strip_suffix, index_of, last_index_of,
  substring,
}

-- `replace(/\s*```$/, '')`.
strip_fence_end : Text → Text
strip_fence_end s = elim (strip_suffix (codes "```") s) [ some r ↦ trim_end r | none ↦ s ]

-- `replace(/^```json\s*/, '')` or `replace(/^```\s*/, '')`, and then the fence at the end.
strip_fence : Text → Text
strip_fence t = elim (strip_prefix (codes "```json") t) [
  | some r ↦ strip_fence_end (trim_start r)
  | none ↦ elim (strip_prefix (codes "```") t) [
    | some r ↦ strip_fence_end (trim_start r)
    | none ↦ t
  ]
]

-- From the first brace to the last one, where they stand in this order.
cut_braces : Text → Text
cut_braces t = elim (index_of b'{' t) [
  | none ↦ t
  | some json_start ↦ elim (last_index_of b'}' t) [
    | none ↦ t
    | some json_end ↦ if ltb json_start json_end then substring json_start (json_end + 1) t else t
  ]
]

unfoldable pub clean_content : Text → Text
unfolding strip_fence strip_fence_end cut_braces
clean_content content = cut_braces (strip_fence (trim content))
