-- ===== src/Bridge.antt =====
-- teensy_io_ros_bridge/bridge_node.py: `TeensyIORosBridge` over the client. A publisher is the list of
-- what was published. The stamps of the messages, which ROS takes from its clock, are left out.
pub mod Services
pub mod Poll
pub mod Names
pub mod Start
use Prim.Native.String.{String}
use teensy_io.Base.{ℕ, suc, ◌==◌, ◌&&◌, Bool, false, List, [], ◌∷◌, ◌++◌, map, if◌then◌else◌, leb}
use teensy_io.Base.Floats.{Float}
use teensy_io.Base.Int.{ℤ, pos, negsuc, pos_part, neg_part}
use teensy_io.Protocol.Commands.{ResourceKind, kind_code}
use teensy_io.Protocol.Errors.{Result, ok, err, stuck}
use teensy_io.Resources.Session.{Board}
use teensy_io.Device.Refs.{resource_ref}

-- A reference of `_resource_ref` as a key.
abbrev pub Ref : Type 0
Ref = ResourceKind × ℤ

unfoldable pub int_eq : ℤ → ℤ → Bool
int_eq a b = pos_part a == pos_part b && neg_part a == neg_part b

unfoldable pub ref_eq : Ref → Ref → Bool
unfolding int_eq
ref_eq (k, i) (l, j) = kind_code k == kind_code l && int_eq i j

-- `name_by_ref.get(ref, "")`
unfoldable pub name_for : Ref → List (Ref × String) → String
unfolding ref_eq
name_for ref [] = ""
name_for ref ((r, name) ∷ rest) = if ref_eq ref r then name else name_for ref rest

-- `name_by_ref[ref] = name`
unfoldable pub set_name : Ref → String → List (Ref × String) → List (Ref × String)
unfolding ref_eq
set_name ref name [] = (ref, name) ∷ []
set_name ref name ((r, old) ∷ rest) =
    let rest' = set_name ref name rest in
    if ref_eq ref r then (r, name) ∷ rest else (r, old) ∷ rest'

pub record TelemetryMessage : Type 0 where
  pub name : String
  pub kind : ℕ
  pub resource_id : ℕ
  pub value : ℤ
  pub value_float : Float

pub record EventMessage : Type 0 where
  pub name : String
  pub kind : ℕ
  pub resource_id : ℕ
  pub value : ℤ
  pub firmware_timestamp_us : ℕ

pub record StatusMessage : Type 0 where
  pub connected : Bool
  pub emergency_stop_active : Bool
  pub telemetry_dropped : ℕ
  pub events_dropped : ℕ
  pub firmware_version : List ℕ
  pub message : String

pub record Bridge (S : Type 0) : Type 0 where
  pub board : Board S
  pub version : List ℕ
  pub name_by_ref : List (Ref × String)
  pub telemetry_pub : List TelemetryMessage
  pub events_pub : List EventMessage
  pub status_pub : List StatusMessage
  pub max_publish_per_poll : ℕ

abbrev keys : {P : Type 0} → List (String × P) → List String
keys = map (λ x. x.0)

-- One name: a `KeyError`, the only exception of `_resource_ref`, is passed over.
unfoldable pub set_ref : String → Result Ref → List (Ref × String) → List (Ref × String)
unfolding set_name
set_ref name (ok ref) refs = set_name ref name refs
set_ref name (err e) refs = refs
set_ref name stuck refs = refs

module _ {S : Type 0} where
  -- `list(io._pins) + list(io._analogs) + list(io._counters) + list(io._encoders)`
  unfoldable pub resource_names : Board S → List String
  resource_names b = keys b.pins ++ (keys b.analogs ++ (keys b.counters ++ keys b.encoders))

  unfoldable pub set_refs : List String → Board S → List (Ref × String) → List (Ref × String)
  unfolding set_ref resource_ref
  set_refs [] b refs = refs
  set_refs (name ∷ names) b refs = set_refs names b (set_ref name (resource_ref name b) refs)

  unfoldable pub configure_names : Bridge S → Bridge S
  unfolding resource_names set_refs
  configure_names s = record s {
    name_by_ref = set_refs (resource_names s.board) s.board s.name_by_ref;
  }
