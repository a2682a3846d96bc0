-- ===== src/Proxy/Prompts/Laws.antt =====
-- A prompt carries the user's whole text.
use mathlib.Core.List.{append_cancel_left, append_cancel_right}
use ic_govmind.Base.{◌≡◌}
use ic_govmind.Js.Text.{Text}
use ic_govmind.Proxy.Prompts.{create_draft_prompt}

-- Two ideas with the same draft prompt are the same text: nothing of an idea is lost or changed.
pub create_draft_prompt_injective :
    (a b : Text) → create_draft_prompt a ≡ create_draft_prompt b → a ≡ b
unfolding create_draft_prompt
create_draft_prompt_injective a b h = append_cancel_right a b _ (append_cancel_left _ _ _ h)
