-- ===== src/Proto/Ranges.antt =====
-- The ranges of what the decoders of proto.hpp return on bytes.
pub mod Device
use mathlib.Core.Path.{subst}
use smart_lighting_system.Base.{
  ℕ, zero, suc, ◌≡◌, refl, ap, List, [], ◌∷◌, arith, length, length-take, All, All-drop, ltb,
  Bool-cases, inl, inr,
}
use smart_lighting_system.Base.Words.{IsU8, IsU16, IsU32}
use smart_lighting_system.Base.Bits.{or_field}
use smart_lighting_system.Proto.Result.{Result, ok, err}
use smart_lighting_system.Proto.Messages.{Bytes, AlarmUp, Command, RegionSyncUp, ZoneDeviceSummary}
use smart_lighting_system.Proto.Fits.{
  IsShort, AlarmUpFits, CommandFits, ZonePowerFits, ZoneDeviceSummaryFits, RegionSyncUpFits,
}
use smart_lighting_system.Proto.Bytes.{or_bytes}
use smart_lighting_system.Proto.Reader.{
  Reader, pure, value, continue, ◌>>=◌, get_u8, get_u16, get_u32, get_chars, get_str, times,
}
use smart_lighting_system.Proto.Decode.{
  read_alarm_up, decode_alarm_up, read_command, decode_command, read_zone_power, read_summary,
  read_summaries, read_region_sync_up, decode_region_sync_up,
}

-- A result has the property, and what is left are bytes.
abbrev pub Post : {A : Type 0} → (A → Type 0) → Result (A × Bytes) → Type 0
Post P (ok (a, rest)) = P a × All IsU8 rest
Post P (err e) = Unit {0}

pub record Yields {A : Type 0} (P : A → Type 0) (m : Reader A) : Type 0 where
  pub at : (p : Bytes) → All IsU8 p → Post P (m p)

module _ {A B : Type 0} where
  continue-Post :
      (P : A → Type 0) (Q : B → Type 0) (f : A → Reader B) (r : Result (A × Bytes))
      → ((a : A) → P a → Yields Q (f a))
      → Post P r
      → Post Q (continue f r)
  continue-Post P Q f (ok (a, rest)) k h = (k a h.0).at rest h.1
  continue-Post P Q f (err e) k h = tt

  pub Yields-bind :
      {P : A → Type 0} {Q : B → Type 0} {m : Reader A} {f : A → Reader B}
      → Yields P m
      → ((a : A) → P a → Yields Q (f a))
      → Yields Q (m >>= f)
  Yields-bind {P} {Q} {m} {f} h k = record { at = λ p u. continue-Post P Q f (m p) k (h.at p u) }

pub Yields-pure : {A : Type 0} {P : A → Type 0} {a : A} → P a → Yields P (pure a)
Yields-pure h = record { at = λ p u. (h, u) }

get_u8-Post : (p : Bytes) → All IsU8 p → Post IsU8 (get_u8 p)
unfolding get_u8
get_u8-Post [] u = tt
get_u8-Post (a ∷ p) u = (u.0, u.1)

pub get_u8-Yields : Yields IsU8 get_u8
get_u8-Yields = record { at = get_u8-Post }

get_u16-Post : (p : Bytes) → All IsU8 p → Post IsU16 (get_u16 p)
unfolding get_u16
get_u16-Post [] u = tt
get_u16-Post (a ∷ []) u = tt
get_u16-Post (a ∷ b ∷ p) u = (rw (or_field 8 a b u.1.0) (omega arith), u.1.1)

pub get_u16-Yields : Yields IsU16 get_u16
get_u16-Yields = record { at = get_u16-Post }

get_u32-Post : (p : Bytes) → All IsU8 p → Post IsU32 (get_u32 p)
unfolding get_u32
get_u32-Post [] u = tt
get_u32-Post (a ∷ []) u = tt
get_u32-Post (a ∷ b ∷ []) u = tt
get_u32-Post (a ∷ b ∷ c ∷ []) u = tt
get_u32-Post (a ∷ b ∷ c ∷ d ∷ p) u =
    (rw (or_bytes a b c d u.0 u.1.0 u.1.1.0 u.1.1.1.0) (omega arith), u.1.1.1.1)

pub get_u32-Yields : Yields IsU32 get_u32
get_u32-Yields = record { at = get_u32-Post }

get_chars-Yields : (n : ℕ) → IsU16 n → Yields IsShort (get_chars n)
unfolding get_chars
get_chars-Yields n h = record {
  at = λ p u. elim (Bool-cases (ltb (length p) n)) [
    | inl e ↦ rw e tt
    | inr e ↦ rw e (omega (arith, length-take n p), All-drop IsU8 n p u)
  ];
}

pub get_str-Yields : Yields IsShort get_str
unfolding get_str
get_str-Yields = Yields-bind get_u16-Yields get_chars-Yields

pub times-Yields :
    {A : Type 0} {P : A → Type 0} {m : Reader A} (n : ℕ)
    → Yields P m
    → Yields (λ xs. All P xs × (length xs ≡ n)) (times n m)
unfolding times
times-Yields zero h = Yields-pure (tt, refl)
times-Yields (suc n) h =
    Yields-bind h
      λ x px. Yields-bind (times-Yields n h) λ xs pxs. Yields-pure ((px, pxs.0), ap suc pxs.1)

read_alarm_up-Yields : Yields AlarmUpFits read_alarm_up
unfolding read_alarm_up
read_alarm_up-Yields = Yields-bind get_u32-Yields λ r hr. Yields-bind get_u32-Yields λ ts hts.
    Yields-bind get_u8-Yields λ d hd. Yields-bind get_u32-Yields λ z hz.
      Yields-bind get_u8-Yields λ c hc. Yields-bind get_str-Yields λ u hu.
        Yields-bind get_str-Yields λ t ht. Yields-pure (record {
          region_id = hr;
          ts_unix = hts;
          device_type = hd;
          zone_id = hz;
          code = hc;
          uri = hu;
          text = ht;
        })

Yields-value :
    {A : Type 0} {P : A → Type 0} {m : Reader A} (p : Bytes) {a : A}
    → Yields P m
    → All IsU8 p
    → value (m p) ≡ ok a
    → P a
Yields-value {A = A} {P = P} {m = m} p {a} h u e = go (m p) (h.at p u) e
  where
    go : (r : Result (A × Bytes)) → Post P r → value r ≡ ok a → P a
    go (ok (b, rest)) k q = let s : b ≡ a = cc in subst P s k.0
    go (err x) k q = cc

-- An ALARM_UP that decodes has fields within their types and texts of at most 65535 bytes.
pub decode_alarm_up-Fits :
    (p : Bytes) (a : AlarmUp) → All IsU8 p → decode_alarm_up p ≡ ok a → AlarmUpFits a
unfolding decode_alarm_up
decode_alarm_up-Fits p a u e = Yields-value p read_alarm_up-Yields u e

read_command-Yields : Yields CommandFits read_command
unfolding read_command
read_command-Yields = Yields-bind get_str-Yields λ u hu. Yields-bind get_u8-Yields λ c hc.
    Yields-bind get_u8-Yields λ v hv. Yields-pure (record { uri = hu; cmd = hc; value = hv })

-- A CMD that decodes has fields within their types.
pub decode_command-Fits :
    (p : Bytes) (c : Command) → All IsU8 p → decode_command p ≡ ok c → CommandFits c
unfolding decode_command
decode_command-Fits p c u e = Yields-value p read_command-Yields u e

read_zone_power-Yields : Yields ZonePowerFits read_zone_power
unfolding read_zone_power
read_zone_power-Yields =
    Yields-bind get_u32-Yields λ z hz. Yields-bind get_u32-Yields λ w hw. Yields-pure (hz, hw)

read_summary-Yields : Yields ZoneDeviceSummaryFits read_summary
unfolding read_summary
read_summary-Yields = Yields-bind get_u32-Yields λ z hz. Yields-bind get_u16-Yields λ lt hlt.
    Yields-bind get_u16-Yields λ lo hlo. Yields-bind get_u16-Yields λ lf hlf.
      Yields-bind get_u16-Yields λ st hst. Yields-bind get_u16-Yields λ sf hsf.
        Yields-pure (record {
          zone_id = hz;
          lamp_total = hlt;
          lamp_on = hlo;
          lamp_fault = hlf;
          sensor_total = hst;
          sensor_fault = hsf;
        })

abbrev SummariesFit : List ZoneDeviceSummary → Type 0
SummariesFit ss = All ZoneDeviceSummaryFits ss × IsU16 (length ss)

-- A count and that many items.
counted-Yields : Yields SummariesFit (get_u16 >>= λ n. times n read_summary)
counted-Yields = Yields-bind get_u16-Yields λ n hn. record {
  at = λ p u. weaken n hn (times n read_summary p) ((times-Yields n read_summary-Yields).at p u);
}
  where
    weaken :
        (n : ℕ)
        → IsU16 n
        → (r : Result (List ZoneDeviceSummary × Bytes))
        → Post (λ xs. All ZoneDeviceSummaryFits xs × (length xs ≡ n)) r
        → Post SummariesFit r
    weaken n hn (ok (xs, rest)) h = ((h.0.0, omega arith), h.1)
    weaken n hn (err e) h = tt

read_summaries-Post : (p : Bytes) → All IsU8 p → Post SummariesFit (read_summaries p)
unfolding read_summaries
read_summaries-Post [] u = ((tt, omega arith), tt)
read_summaries-Post (a ∷ p) u = counted-Yields.at (a ∷ p) u

read_region_sync_up-Yields : Yields RegionSyncUpFits read_region_sync_up
unfolding read_region_sync_up
read_region_sync_up-Yields = Yields-bind get_u32-Yields λ r hr. Yields-bind get_u32-Yields λ v hv.
    Yields-bind get_u16-Yields λ n hn. Yields-bind (times-Yields n read_zone_power-Yields) λ ps hps.
      Yields-bind {P = SummariesFit} (record { at = read_summaries-Post })
        λ ss hss. Yields-pure (record {
          region_id = hr;
          version = hv;
          powers = hps.0;
          power_count = omega arith;
          summaries = hss.0;
          summary_count = hss.1;
        })

-- A REGION_SYNC_UP that decodes has fields and list lengths within their types.
pub decode_region_sync_up-Fits :
    (p : Bytes) (s : RegionSyncUp)
    → All IsU8 p
    → decode_region_sync_up p ≡ ok s
    → RegionSyncUpFits s
unfolding decode_region_sync_up
decode_region_sync_up-Fits p s u e = Yields-value p read_region_sync_up-Yields u e
