-- ===== src/Packet/Clear.antt =====
-- Searches past a text in which no occurrence of the needle begins.
use iedsync_together.Prelude.{ℕ, ◌≡◌, refl, true, [], ◌∷◌, ◌++◌, none, some, length, arith, Lacks}
use iedsync_together.Text.{Bytes, find, rfind}
use iedsync_together.Text.Search.{find_here}
use iedsync_together.Packet.Fields.{differs, clear, differs-starts_with}

differs-append : (a rest b : Bytes) → differs a b ≡ true → differs (a ++ rest) b ≡ true
differs-append [] rest b h = cc
differs-append (x ∷ a) rest [] h = cc
differs-append (x ∷ a) rest (y ∷ b) h = ground (arith, differs-append a rest b)

pub clear-append :
    (needle a b : Bytes)
    → clear needle a ≡ true
    → clear needle b ≡ true
    → clear needle (a ++ b) ≡ true
clear-append needle [] b p q = q
clear-append needle (c ∷ a) b p q =
    ground (arith, differs-append (c ∷ a) b needle, clear-append needle a b)

pub find-clear :
    (k : ℕ) (ks pre rest : Bytes)
    → clear (k ∷ ks) pre ≡ true
    → find (pre ++ ((k ∷ ks) ++ rest)) (k ∷ ks) ≡ some (length pre)
unfolding find
find-clear k ks [] rest h = find_here k ks rest
find-clear k ks (c ∷ pre) rest h =
    ground
      (arith, differs-starts_with (c ∷ pre) (k ∷ ks) ((k ∷ ks) ++ rest), find-clear k ks pre rest)

pub rfind-clear :
    (needle pre rest : Bytes)
    → clear needle pre ≡ true
    → rfind rest needle ≡ none
    → rfind (pre ++ rest) needle ≡ none
unfolding rfind
rfind-clear needle [] rest h e = e
rfind-clear needle (c ∷ pre) rest h e =
    ground (arith, differs-starts_with (c ∷ pre) needle rest, rfind-clear needle pre rest)

pub clear-Lacks : (k : ℕ) (ks s : Bytes) → Lacks k s → clear (k ∷ ks) s ≡ true
clear-Lacks k ks [] h = refl
clear-Lacks k ks (c ∷ s) (ne, h) = ground (arith, clear-Lacks k ks s h)
