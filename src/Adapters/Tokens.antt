-- ===== src/Adapters/Tokens.antt =====
-- The token counts of app/providers/mock_provider.py.
use Prim.Native.Char.{code}
use Prim.Native.String.{◌++◌ as ◌<>◌}
use text.Mathlib.TextLemmas.{cons-append, nil-append}
use model_route.Adapters.Mock.{mock_result}
use model_route.Base.{
  String, ℕ, ◌+◌, ◌<◌, ◌≡◌, refl, ap, ◌∙◌, true, false, List, ◌∷◌, ◌++◌, arith, codes,
}
use model_route.Base.Unicode.{Unicode, ascii, strip}
use model_route.Providers.{GenerationRequest, ProviderMetadata}
use model_route.Router.{count_tokens, approximate_token_count}

codes-append : (s t : String) → codes (s <> t) ≡ codes s ++ codes t
unfolding codes
codes-append String.[] t = ap codes (nil-append t)
codes-append (String.◌∷◌ c s) t =
    ap codes (cons-append c s t) ∙ ap (λ cs. code c ∷ cs) (codes-append s t)

-- A Unicode database that knows the ASCII characters.
abbrev pub IsAscii : Unicode → Type 0
IsAscii u = (c : ℕ) → c < 128 → (u.is_word c ≡ ascii.is_word c) × (u.is_space c ≡ ascii.is_space c)

prefix_tokens :
    (u : Unicode)
    → IsAscii u
    → (cs : List ℕ)
    → count_tokens u false (codes "Mock response: " ++ cs) ≡ 3 + count_tokens u false cs
unfolding count_tokens codes
prefix_tokens u a cs =
    let word : (c : ℕ) → c < 128 → ascii.is_word c ≡ true → u.is_word c ≡ true =
      λ c small h. (a c small).0 ∙ h in
    let other : (c : ℕ) → c < 128 → ascii.is_word c ≡ false → u.is_word c ≡ false =
      λ c small h. (a c small).0 ∙ h in
    let space : u.is_space 32 ≡ true = (a 32 (omega arith)).1 in
    let colon : u.is_space 58 ≡ false = (a 58 (omega arith)).1 in
    rw
      (
        word 77 (omega arith) refl,
        word 111 (omega arith) refl,
        word 99 (omega arith) refl,
        word 107 (omega arith) refl,
        other 32 (omega arith) refl,
        word 114 (omega arith) refl,
        word 101 (omega arith) refl,
        word 115 (omega arith) refl,
        word 112 (omega arith) refl,
        word 110 (omega arith) refl,
        other 58 (omega arith) refl,
        space,
        colon,
      )
      (omega arith)

-- If the Unicode database knows the ASCII characters, the mock counts three tokens more in its
-- response than in the prompt, whatever the prompt is.
pub mock_result_tokens :
    {F : Type 0}
    → (u : Unicode) (metadata : ProviderMetadata F) (request : GenerationRequest F) → IsAscii u
    → (mock_result u metadata request).output_tokens
      ≡ 3 + (mock_result u metadata request).input_tokens
unfolding mock_result approximate_token_count
mock_result_tokens u metadata request a =
    ap (count_tokens u false) (codes-append "Mock response: " (strip u request.prompt))
    ∙ prefix_tokens u a (codes (strip u request.prompt))
