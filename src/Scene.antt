-- ===== src/Scene.antt =====
-- What the plugin reads and writes of the game's scene, which is no part of the repository: the tree
-- of objects below an actor, and their local transforms, which are a store of their own, at the
-- addresses of the objects. `ParseIEDObjectFormID` stands in LocalCaptureProbe.cpp and in
-- RemoteIEDRenderer.cpp, with one text.
use Prim.Native.Nat.{bit_or}
use iedsync_together.Prelude.{
  ℕ, ◌+◌, ◌*◌, ◌%◌, ◌^◌, ◌≡◌, refl, Bool, true, false, List, [], ◌∷◌, Option, none, some, ltb, ◌==◌,
  if◌then◌else◌, length, ◌>>=◌,
}
use iedsync_together.Text.{Bytes, codes, starts_with, find, substr_count}
use iedsync_together.FormIdentity.Hex.{hex_value}
use iedsync_together.LocalIedState.{Floats}

-- `RE::NiAVObject`: its name, the names of its parent and of the parent's parent, if they have them,
-- and `GetAppCulled`.
pub record Object : Type 0 where
  pub address : ℕ
  pub name : Option Bytes
  pub parent_name : Option Bytes
  pub anchor_name : Option Bytes
  pub culled : Bool

-- An object and the children of its node; an object that is no node has none. A child may be null.
mutual
  pub data Tree : Type 0 where
    tree : Object → Children → Tree

  pub data Children : Type 0 where
    leaf : Children
    null_child : Children → Children
    child : Tree → Children → Children

-- A name that is a null pointer reads as the empty text.
abbrev pub or_empty : Option Bytes → Bytes
or_empty none = []
or_empty (some name) = name

-- The loop over the 8 digits.
unfoldable pub read_hex : Bytes → ℕ → Option ℕ
read_hex [] number = some number
read_hex (c ∷ cs) number = hex_value c >>= λ d. read_hex cs (bit_or (number * 16 % 2 ^ 32) d)

unfoldable pub parse_ied_object_form_id : Bytes → Option ℕ
unfolding read_hex
parse_ied_object_form_id name =
    if starts_with name (codes "OBJECT ")
    then (find name (codes "[") >>= λ open_at.
        if ltb (length name) (open_at + 9)
        then none
        else (read_hex (substr_count name (open_at + 1) 8) 0 >>= λ number.
            if number == 0 then none else some number))
    else none

-- `local` of an object: `rotate` row by row, `translate` as x, y and z, and `scale`.
pub record Transform ⦃fl : Floats⦄ : Type 0 where
  pub rotate : List fl.Float
  pub translate : List fl.Float
  pub size : fl.Float

abbrev pub Store : ⦃fl : Floats⦄ → Type 0
Store = ℕ → Transform

unfoldable pub write : ⦃fl : Floats⦄ → Store → ℕ → Transform → Store
write store address value = λ a. if address == a then value else store a

-- The operations of floating-point numbers that the source uses: `<`, `std::abs` of a difference, its
-- literals, `*`, `/`, `std::round` and `==`. A number differs from itself by nothing that is more than a positive number, since
-- the difference is zero or no number.
pub record Arithmetic ⦃fl : Floats⦄ : Type 0 where
  pub less : fl.Float → fl.Float → Bool
  pub difference : fl.Float → fl.Float → fl.Float
  pub literal : Bytes → fl.Float
  pub times : fl.Float → fl.Float → fl.Float
  pub over : fl.Float → fl.Float → fl.Float
  pub round : fl.Float → fl.Float
  pub same : fl.Float → fl.Float → Bool
  pub difference_self :
      (x e : fl.Float) → less (literal (codes "0.0")) e ≡ true → less e (difference x x) ≡ false
  pub less_asym : (x y : fl.Float) → less x y ≡ true → less y x ≡ false

shield_name : parse_ied_object_form_id (codes "OBJECT 1 [0001397E]") ≡ some 0x1397E
unfolding parse_ied_object_form_id find starts_with hex_value
shield_name = refl
