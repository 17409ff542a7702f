-- ===== src/Bridge/Names.antt =====
-- The names under which the bridge publishes.
use Prim.Native.String.{String}
use teensy_io.Base.{List}
use teensy_io.Base.{◌≡◌}
use teensy_io.Protocol.Errors.{ok}
use teensy_io.Resources.Session.{Board}
use teensy_io.Device.Refs.{resource_ref}
use teensy_io.Bridge.{Bridge, Ref, name_for}

module _ {S : Type 0} (b : Board S) (ref : Ref) where
  -- The name for a reference is one that has it.
  abbrev Resolved : List (Ref × String) → Type 0
  Resolved refs = resource_ref (name_for ref refs) b ≡ ok ref
