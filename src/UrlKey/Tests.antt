-- ===== src/UrlKey/Tests.antt =====
-- Paths through `normalizePath`.
use xrd_ucache.Base.{◌≡◌, refl, [], ◌∷◌, All}
use xrd_ucache.UrlKey.{Text, slash, dot, split, resolve, normalize_path}
use xrd_ucache.UrlKey.Canonical.{IsSegment, normalize_path_idem}

-- "//a/./b/../../../c/".
abbrev messy : Text
messy =
    slash ∷ slash ∷ 97 ∷ slash ∷ dot ∷ slash ∷ 98 ∷ slash ∷ dot ∷ dot ∷ slash ∷ dot ∷ dot ∷ slash
    ∷ dot ∷ dot ∷ slash ∷ 99 ∷ slash ∷ []

-- "/c".
tidies : normalize_path messy ≡ slash ∷ 99 ∷ []
unfolding normalize_path
tidies = refl

normalize_path_idem_example :
    (normalize_path (normalize_path messy) ≡ normalize_path messy)
    × All IsSegment (resolve (split slash messy) [])
normalize_path_idem_example = normalize_path_idem messy
