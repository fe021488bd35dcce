-- ===== src/Region/Edges.antt =====
-- The edges of a sensor's readings in udp_telemetry_server.hpp.
use smart_lighting_system.Base.{ℕ, ◌≡◌, ap, false, ◌&&◌, List, some, bytes_key, arith, eqb}
use smart_lighting_system.Base.Assoc.{lookup, insert, lookup-insert_self, insert-insert_self}
use smart_lighting_system.Proto.Messages.{Bytes}
use smart_lighting_system.Region.{Region}
use smart_lighting_system.Region.Telemetry.{motion_edge}

-- A reading that repeats the last one of its sensor changes nothing and sends no command.
pub motion_edge_repeat :
    (zone : ℕ) (uri : Bytes) (motion : ℕ) (r : Region)
    → lookup uri r.last_motion ≡ some motion
    → insert uri motion r.last_motion ≡ r.last_motion
    → motion_edge zone uri motion r ≡ r
unfolding motion_edge
motion_edge_repeat zone uri motion r e i =
    let rising : (eqb motion 0 && eqb motion 1) ≡ false = ground arith in
    let falling : (eqb motion 1 && eqb motion 0) ≡ false = ground arith in
    rw e (rw (rising, falling) (ap (λ (l : List (Bytes × ℕ)). record r { last_motion = l }) i))

-- The second of two equal readings of a sensor, one after the other, has no effect: no lamp gets a
-- second command. The zone of the second may be another.
pub motion_edge_twice :
    (zone later : ℕ) (uri : Bytes) (motion : ℕ) (r : Region)
    → motion_edge later uri motion (motion_edge zone uri motion r) ≡ motion_edge zone uri motion r
motion_edge_twice zone later uri motion r =
    motion_edge_repeat later uri motion (motion_edge zone uri motion r)
      (unfold motion_edge in lookup-insert_self uri motion _)
      (unfold motion_edge in insert-insert_self uri motion _)
