-- ===== src/Engine.antt =====
-- What the plugin reads of the game's engine, which is no part of the repository: the forms, the
-- actors and the process lists, as values that a call takes from it. Only the fields that the code
-- reads are here. A null pointer is `none`.
use iedsync_together.Prelude.{ℕ, Bool, Option, ◌>>=◌}
use iedsync_together.Text.{Bytes}

-- `RE::Actor`: `GetFormID`, `IsPlayerRef`, the form id of `GetActorBase`, and `GetName`.
pub record Actor : Type 0 where
  pub form_id : ℕ
  pub is_player_ref : Bool
  pub base : Option ℕ
  pub name : Option Bytes

-- `RE::TESForm`: the file name of `GetFile(0)`, if it has that file, and the actor that
-- `As<RE::Actor>` gives.
pub record Form : Type 0 where
  pub form_id : ℕ
  pub local_form_id : ℕ
  pub file : Option Bytes
  pub actor : Option Actor

pub record Engine : Type 0 where
  -- `RE::TESForm::LookupByID`.
  pub lookup_by_id : ℕ → Option Form
  -- `RE::TESDataHandler::GetSingleton`, and the `LookupForm` of the data handler.
  pub data_handler : Option (ℕ → Bytes → Option Form)

-- `LookupByID` and `As<RE::Actor>`, as several functions chain them.
abbrev pub lookup_actor : Engine → ℕ → Option Actor
lookup_actor engine form_id = engine.lookup_by_id form_id >>= λ form. form.actor
