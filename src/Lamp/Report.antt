-- ===== src/Lamp/Report.antt =====
-- The status report of luminaire_client.cpp.
use smart_lighting_system.Base.{◌+◌, ◌*◌, ◌≤◌, ℕ, ◌≡◌, ◌≢◌, refl, arith}
use smart_lighting_system.Base.Words.{u32, IsU8, IsU32}
use smart_lighting_system.Proto.Fits.{IsShort, StatusReportFits}
use smart_lighting_system.Fsm.Lamp.{LampState, idle, unregistered, registering, off, on, fault}
use smart_lighting_system.Lamp.{Lamp, is_on, report_of}
use smart_lighting_system.Lamp.Consistent.{IsConsistent, byte_of, with}

-- What a report has to say of a state and an intensity: `on`, and the power.
pub data Shows : LampState → ℕ → ℕ → ℕ → Type 0 where
  lit : (n : ℕ) → Shows on n 1 (70000 + 800 * n)
  dark : (s : LampState) (n : ℕ) → s ≢ on → Shows s n 0 0

pub report_of-Fits :
    (l : Lamp)
    → IsConsistent l
    → IsShort l.uri
    → IsU32 l.zone
    → let r = report_of l in
      StatusReportFits r
      × (r.uri ≡ l.uri)
      × (r.zone_id ≡ l.zone)
      × Shows l.state r.intensity r.on r.power_mw
      × (r.power_mw ≤ 274000)
unfolding report_of
report_of-Fits l h u z = fits l.state (byte_of l.state l.intensity h)
  where
    out : (s : LampState) → Type 0
    out s =
        let r = report_of (with l s l.intensity) in
        StatusReportFits r
        × (r.uri ≡ l.uri)
        × (r.zone_id ≡ l.zone)
        × Shows s r.intensity r.on r.power_mw
        × (r.power_mw ≤ 274000)

    without : (s : LampState) → is_on s ≡ 0 → s ≢ on → IsU8 l.intensity → out s
    without s e n b = rw e (
      record { uri = u; zone_id = z; on = omega arith; intensity = b; power_mw = omega arith },
      refl,
      refl,
      dark s l.intensity n,
      omega arith,
    )

    fits : (s : LampState) → IsU8 l.intensity → out s
    fits on b =
        let no_wrap : u32 (70000 + 800 * l.intensity) ≡ 70000 + 800 * l.intensity = omega arith in
        (
          record { uri = u; zone_id = z; on = omega arith; intensity = b; power_mw = omega arith },
          refl,
          refl,
          rw no_wrap (lit l.intensity),
          omega arith,
        )
    fits off b = without off refl (λ e. cc) b
    fits idle b = without idle refl (λ e. cc) b
    fits unregistered b = without unregistered refl (λ e. cc) b
    fits registering b = without registering refl (λ e. cc) b
    fits fault b = without fault refl (λ e. cc) b
