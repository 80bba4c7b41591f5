-- ===== src/TwoFactor.antt =====
-- frontend/src/components/TwoFactorSettings.tsx: the wizard that enables the second factor, and the
-- dialogs that disable it and that make new recovery codes. A request may be answered after its
-- dialog was closed.
pub mod Once
mod Tests
use isachore.Base.{
  String, Bool, true, false, ◌&&◌, ◌||◌, Option, none, some, List, [], ◌∷◌, if◌then◌else◌,
}
use isachore.Types.{TwoFactorSetup}

pub data EnablePhase : Type 0 where
  scan recovery : EnablePhase

pub data RegenPhase : Type 0 where
  prompt recovery : RegenPhase

-- `code` are the two fields of the dialogs, `confirm_code` and `prompt_code`.
pub record TwoFactor : Type 0 where
  pub enable_open : Bool
  pub enable_phase : EnablePhase
  pub setup : Option TwoFactorSetup
  pub confirm_code : String
  pub enable_busy : Bool
  pub enable_error : Option String
  pub codes : List String
  pub disable_open : Bool
  pub regen_open : Bool
  pub prompt_code : String
  pub prompt_busy : Bool
  pub prompt_error : Option String
  pub regen_phase : RegenPhase

pub data Outcome (A : Type 0) : Type 0 where
  done : A → Outcome A
  failed : String → Outcome A

-- The buttons, fields and submits, and what the requests are answered with; the session is read
-- again after the second factor was enabled or disabled.
pub data Act : Type 0 where
  open_enable open_disable open_regen : Act
  close_enable close_disable close_regen : Act
  type_confirm type_prompt : String → Act
  confirm_enable disable regen : Act
  setup_answered : Outcome TwoFactorSetup → Act
  confirm_answered : Outcome (List String) → Act
  enable_refreshed : Option String → Act
  disable_answered : Outcome (Unit {0}) → Act
  disable_refreshed : Option String → Act
  regen_answered : Outcome (List String) → Act

abbrev pub closed : TwoFactor
closed = record {
  enable_open = false;
  enable_phase = EnablePhase.scan;
  setup = none;
  confirm_code = "";
  enable_busy = false;
  enable_error = none;
  codes = [];
  disable_open = false;
  regen_open = false;
  prompt_code = "";
  prompt_busy = false;
  prompt_error = none;
  regen_phase = RegenPhase.prompt;
}

abbrev pub or_kept : Option String → Option String → Option String
or_kept (some message) kept = some message
or_kept none kept = kept

unfoldable pub act : Act → TwoFactor → TwoFactor
act open_enable h = record h {
  enable_phase = EnablePhase.scan;
  confirm_code = "";
  codes = [];
  setup = none;
  enable_error = none;
  enable_busy = true;
  enable_open = true;
}
act (setup_answered (done s)) h = record h { setup = some s; enable_busy = false }
act (setup_answered (failed message)) h = record h {
  enable_error = some message;
  enable_busy = false;
}
act (type_confirm text) h = record h { confirm_code = text }
act confirm_enable h =
    if h.enable_busy then h else record h { enable_error = none; enable_busy = true }
act (confirm_answered (done codes)) h = record h {
  codes = codes;
  enable_phase = EnablePhase.recovery;
}
act (confirm_answered (failed message)) h = record h {
  enable_error = some message;
  enable_busy = false;
}
act (enable_refreshed failure) h = record h {
  enable_error = or_kept failure h.enable_error;
  enable_busy = false;
}
act close_enable h = record h { enable_open = false }
act open_disable h = record h { prompt_code = ""; prompt_error = none; disable_open = true }
act (type_prompt text) h = record h { prompt_code = text }
act disable h = if h.prompt_busy then h else record h { prompt_error = none; prompt_busy = true }
act (disable_answered (done _)) h = record h { disable_open = false }
act (disable_answered (failed message)) h = record h {
  prompt_error = some message;
  prompt_busy = false;
}
act (disable_refreshed failure) h = record h {
  prompt_error = or_kept failure h.prompt_error;
  prompt_busy = false;
}
act close_disable h = record h { disable_open = false }
act open_regen h = record h {
  prompt_code = "";
  codes = [];
  prompt_error = none;
  regen_phase = RegenPhase.prompt;
  regen_open = true;
}
act regen h = if h.prompt_busy then h else record h { prompt_error = none; prompt_busy = true }
act (regen_answered (done codes)) h = record h {
  codes = codes;
  regen_phase = RegenPhase.recovery;
  prompt_busy = false;
}
act (regen_answered (failed message)) h = record h {
  prompt_error = some message;
  prompt_busy = false;
}
act close_regen h = record h { regen_open = false }

unfoldable pub acts : List Act → TwoFactor → TwoFactor
acts [] h = h
acts (a ∷ rest) h = acts rest (act a h)

abbrev pub is_recovery : EnablePhase → Bool
is_recovery EnablePhase.scan = false
is_recovery EnablePhase.recovery = true

abbrev pub is_new_codes : RegenPhase → Bool
is_new_codes RegenPhase.prompt = false
is_new_codes RegenPhase.recovery = true

-- The recovery codes that are on screen.
abbrev pub on_screen : TwoFactor → List String
on_screen h =
    if (h.enable_open && is_recovery h.enable_phase) || (h.regen_open && is_new_codes h.regen_phase)
    then h.codes
    else []
