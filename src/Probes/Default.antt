-- ===== src/Probes/Default.antt =====
-- bpf-probes/src/lib.rs: the default path of a probe.
use rust_bpf.Prelude.{◌≡◌, refl, Option, none, some}
use rust_bpf.Text.{Text}
use rust_bpf.Probes.Probe.{
  Probe, uprobe, uretprobe, usdt, prog_type, attach_type, set_default_path, show_type,
}

-- The path of a probe, of those kinds that have one.
abbrev pub path_of : Probe → Option (Option Text)
path_of (uprobe path symbol offset) = some path
path_of (uretprobe path symbol) = some path
path_of (usdt path probe) = some path
path_of _ = none

-- What the default leaves of a path.
abbrev pub Defaulted : Text → Option (Option Text) → Option (Option Text) → Type 0
Defaulted default none after = after ≡ none
Defaulted default (some none) after = after ≡ some (some default)
Defaulted default (some (some path)) after = after ≡ some (some path)

-- The default path is set where a path is missing and nowhere else; it changes neither the types
-- of the program nor the kind of the probe, and a second default changes nothing.
pub set_default_path_lem :
    (p : Probe) (default other : Text)
    → Defaulted default (path_of p) (path_of (set_default_path p default))
      × (prog_type (set_default_path p default) ≡ prog_type p)
      × (attach_type (set_default_path p default) ≡ attach_type p)
      × (show_type (set_default_path p default) ≡ show_type p)
      × (set_default_path (set_default_path p default) other ≡ set_default_path p default)
unfolding set_default_path prog_type attach_type show_type
set_default_path_lem (uprobe none symbol offset) default other = (refl, refl, refl, refl, refl)
set_default_path_lem (uprobe (some path) symbol offset) default other =
    (refl, refl, refl, refl, refl)
set_default_path_lem (uretprobe none symbol) default other = (refl, refl, refl, refl, refl)
set_default_path_lem (uretprobe (some path) symbol) default other = (refl, refl, refl, refl, refl)
set_default_path_lem (usdt none probe) default other = (refl, refl, refl, refl, refl)
set_default_path_lem (usdt (some path) probe) default other = (refl, refl, refl, refl, refl)
set_default_path_lem _ default other = (refl, refl, refl, refl, refl)
