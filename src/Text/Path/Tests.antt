-- ===== src/Text/Path/Tests.antt =====
-- Paths of concrete texts.
use lamb_os.Base.{◌≡◌, refl, List, ℕ, [], ◌∷◌, arith}
use lamb_os.Base.Outcome.{done}
use lamb_os.Text.StringTokenizer.{is_delim}
use lamb_os.Text.Path.{extension}
use lamb_os.Text.Path.Laws.{path_of, extension_lem}

-- "/boot/k.c"
abbrev boot : List ℕ
boot = b'/' ∷ b'b' ∷ b'o' ∷ b'o' ∷ b't' ∷ b'/' ∷ b'k' ∷ b'.' ∷ b'c' ∷ []

boot_components :
    (path_of boot).path_components
    ≡ (b'b' ∷ b'o' ∷ b'o' ∷ b't' ∷ []) ∷ (b'k' ∷ b'.' ∷ b'c' ∷ []) ∷ []
unfolding is_delim
boot_components = refl

extension-boot : extension (λ k. k) (path_of boot) ≡ done (b'c' ∷ [])
unfolding lamb_os.Text.Path.last_path_component lamb_os.Text.Path.last_of is_delim
extension-boot = extension_lem (λ k. k) (path_of boot) refl refl (omega arith)
