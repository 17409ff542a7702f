-- ===== src/Config/Loader.antt =====
-- config/loader.py: `load_config`.
use Prim.Native.String.{String}
use teensy_io.Base.{Option, none, some, if◌then◌else◌, ◌≡◌}
use mathlib.Core.Path.{subst}
use teensy_io.Protocol.Errors.{Error, Result, ok, err, stuck, both_ok, ◌>>=◌, ◌>>◌}
use teensy_io.Config.{Value, Entries, is_true}
use teensy_io.Config.Schema.{validate_config}

-- `Path(path).open(…)` and PyYAML, which may not be installed: then `safe_load` is `none`.
pub record Files : Type 0 where
  pub read : String → Result String
  pub safe_load : Option (String → Result Value)

-- `data or {}`
unfoldable pub or_empty : Value → Value
unfolding is_true
or_empty data' = if is_true data' then data' else Value.mapping Entries.end

-- From `if not isinstance(data, dict)` on.
unfoldable pub checked_root : Value → Result Entries
unfolding validate_config
checked_root (Value.mapping config) = validate_config (Value.mapping config) >> ok config
checked_root _ = err Error.value_error

unfoldable pub load_config : Files → String → Result Entries
unfolding or_empty checked_root
load_config files path = elim files.safe_load [
  | none ↦ err Error.runtime_error
  | some safe_load ↦ files.read path >>= safe_load >>= λ data'. checked_root (or_empty data')
]

checked_root-valid :
    (data' : Value) (config : Entries)
    → checked_root data' ≡ ok config
    → validate_config (Value.mapping config) ≡ ok tt
unfolding checked_root
checked_root-valid (Value.mapping c) config h =
    let (accepted, same) = both_ok (validate_config (Value.mapping c)) (ok c) h in
    subst (λ x. validate_config (Value.mapping x) ≡ ok tt) {x = c} {y = config} (cc) accepted
checked_root-valid _ config h = absurd (cc)

ok_bind :
    {A B : Type 0} (r : Result A) (f : A → Result B) {b : B}
    → (r >>= f) ≡ ok b
    → (a : A) × (f a ≡ ok b)
ok_bind (ok a) f h = (a, h)
ok_bind (err e) f h = absurd (cc)
ok_bind stuck f h = absurd (cc)

-- What the loader gives was accepted.
pub load_config-valid :
    (files : Files) (path : String) (config : Entries)
    → load_config files path ≡ ok config
    → validate_config (Value.mapping config) ≡ ok tt
unfolding load_config
load_config-valid files path config h = of_parser files.safe_load h
  where
    of_parser :
        (parser : Option (String → Result Value))
        → elim parser [
          | none ↦ err Error.runtime_error
          | some safe_load ↦
              files.read path >>= safe_load >>= λ data'. checked_root (or_empty data')
        ]
          ≡ ok config
        → validate_config (Value.mapping config) ≡ ok tt
    of_parser none k = absurd (cc)
    of_parser (some safe_load) k =
        let (data', root) =
          ok_bind (files.read path >>= safe_load) (λ d. checked_root (or_empty d)) k in
        checked_root-valid (or_empty data') config root
