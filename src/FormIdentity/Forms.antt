-- ===== src/FormIdentity/Forms.antt =====
-- `MakeFormIdentity` and `ResolveFormIdentity` of src/FormIdentity.cpp.
use iedsync_together.Prelude.{
  ℕ, ◌≤◌, ◌<◌, ◌≡◌, ◌||◌, [], ◌∷◌, Option, none, some, ◌==◌, leb, if◌then◌else◌, ◌>>=◌, >>=-eq-some,
  some_inj, subst, Bool-cases, inl, inr,
}
use iedsync_together.Text.{Bytes, is_empty}
use iedsync_together.Text.Number.{u32_max}
use iedsync_together.Engine.{Engine, Form}
use iedsync_together.FormIdentity.Slots.{FormIdentity}
use iedsync_together.FormIdentity.Hex.RoundTrip.{IsByteText}
use iedsync_together.FormIdentity.Slots.RoundTrip.{IsIdentity}

-- The first id of the forms that only the running game has.
abbrev pub dynamic_base : ℕ
dynamic_base = 0xFF000000

unfoldable pub make_form_identity : Option Form → Option FormIdentity
make_form_identity none = none
make_form_identity (some form) =
    if form.form_id == 0 || leb dynamic_base form.form_id
    then none
    else (form.file >>= λ filename.
        if is_empty filename
        then none
        else some (record { plugin = filename; local_form_id = form.local_form_id }))

unfoldable pub resolve_form_identity : Engine → FormIdentity → Option Form
resolve_form_identity engine identity =
    if is_empty identity.plugin || identity.local_form_id == 0
    then none
    else (engine.data_handler >>= λ lookup_form. lookup_form identity.local_form_id identity.plugin)

-- The engine keeps file names as bytes and local ids positive, within their type.
pub record IsFormData (form : Form) : Type 0 where
  pub file_bytes : (name : Bytes) → form.file ≡ some name → IsByteText name
  pub local_pos : 0 < form.local_form_id
  pub local_le : form.local_form_id ≤ u32_max

-- An identity that is made of a form with a positive local id, both within their types, can be
-- sent: its plugin is named, of bytes, and its number fits.
pub make_form_identity-IsIdentity :
    (form : Form) {identity : FormIdentity}
    → IsFormData form
    → make_form_identity (some form) ≡ some identity
    → IsIdentity identity
unfolding make_form_identity
make_form_identity-IsIdentity form {identity} d e =
    elim (Bool-cases (form.form_id == 0 || leb dynamic_base form.form_id)) [
      | inl refused ↦ cc (rw refused at e)
      | inr static ↦
          let (name, file, h) = >>=-eq-some form.file _ (rw static at e) in
          named name (d.file_bytes name file) h
    ]
  where
    named :
        (name : Bytes)
        → IsByteText name
        → (if is_empty name
            then none
            else some (record { plugin = name; local_form_id = form.local_form_id }))
          ≡ some identity
        → IsIdentity identity
    named [] b h = cc
    named (c ∷ cs) b h = subst IsIdentity (some_inj h) (record {
      plugin_bytes = b;
      plugin_ne_nil = λ q. cc;
      id_pos = d.local_pos;
      id_le = d.local_le;
    })
