-- ===== src/Central/Alarms.antt =====
-- The list of alarms of central_store.hpp.
use smart_lighting_system.Base.{
  ℕ, zero, suc, ◌+◌, ◌-◌, ◌≤◌, ◌≡◌, refl, sym, ap, ◌∙◌, List, [], ◌∷◌, ◌++◌, append_assoc,
  append-nil, arith, length, length-append, length-drop, drop, ltb, Bool-cases, inl, inr,
  if◌then◌else◌,
}
use smart_lighting_system.Central.{AlarmRecord, CentralStore, empty_store, max_alarms, push_alarm}

-- The last `n` items of a list.
abbrev pub last {ℓ} : {A : Type ℓ} → ℕ → List A → List A
last n xs = drop (length xs - n) xs

drop-append {ℓ} :
    {A : Type ℓ} (n : ℕ) (xs ys : List A) → n ≤ length xs → drop n (xs ++ ys) ≡ drop n xs ++ ys
drop-append zero xs ys h = refl
drop-append (suc n) [] ys h = absurd (omega arith)
drop-append (suc n) (x ∷ xs) ys h = drop-append n xs ys (omega arith)

drop-nil {ℓ} : {A : Type ℓ} (n : ℕ) → drop {A = A} n [] ≡ []
drop-nil zero = refl
drop-nil (suc n) = refl

drop-drop {ℓ} : {A : Type ℓ} (m n k : ℕ) (xs : List A) → m + n ≡ k → drop m (drop n xs) ≡ drop k xs
drop-drop m zero k xs e = ap (λ (j : ℕ). drop j xs) {x = m} {y = k} (omega arith)
drop-drop m (suc n) k [] e = drop-nil m ∙ sym (drop-nil k)
drop-drop m (suc n) zero (x ∷ xs) e = absurd (omega arith)
drop-drop m (suc n) (suc k) (x ∷ xs) e = drop-drop m n k xs (omega arith)

-- The test of `push_alarm` changes nothing: there would be nothing to erase.
pub trimmed :
    (n : ℕ) (xs : List AlarmRecord)
    → (if ltb max_alarms n then drop (n - max_alarms) xs else xs) ≡ drop (n - max_alarms) xs
trimmed n xs = elim (Bool-cases (ltb max_alarms n)) [
  | inl e ↦ rw e
  | inr e ↦ rw e (ap (λ (j : ℕ). drop j xs) {x = 0} {y = n - max_alarms} (ground arith))
]

-- Pushing onto the newest `max_alarms` of a history gives the newest of the longer history.
pub push_last :
    (a : AlarmRecord) (s : CentralStore) (history : List AlarmRecord)
    → s.alarms ≡ last max_alarms history
    → (push_alarm a s).alarms ≡ last max_alarms (history ++ a ∷ [])
unfolding push_alarm
push_last a s history h =
    let k : ℕ = length history - max_alarms in
    let all : s.alarms ++ a ∷ [] ≡ drop k (history ++ a ∷ []) =
      rw h (sym (drop-append k history (a ∷ []) (omega arith))) in
    trimmed (length (s.alarms ++ a ∷ [])) (s.alarms ++ a ∷ [])
    ∙ ap (λ (l : List AlarmRecord). drop (length l - max_alarms) l) all
    ∙ drop-drop _ k (length (history ++ a ∷ []) - max_alarms) (history ++ a ∷ [])
        (omega (arith, length-drop k (history ++ a ∷ []), length-append history (a ∷ [])))

pub push_all : List AlarmRecord → CentralStore → CentralStore
push_all [] s = s
push_all (a ∷ rest) s = push_all rest (push_alarm a s)

push_all-last :
    (new : List AlarmRecord) (s : CentralStore) (history : List AlarmRecord)
    → s.alarms ≡ last max_alarms history
    → (push_all new s).alarms ≡ last max_alarms (history ++ new)
unfolding push_all
push_all-last [] s history h = h ∙ ap (last max_alarms) (sym (append-nil history))
push_all-last (a ∷ rest) s history h =
    push_all-last rest (push_alarm a s) (history ++ a ∷ []) (push_last a s history h)
    ∙ ap (last max_alarms) (append_assoc history (a ∷ []) rest)

-- After any sequence of alarms the store holds the newest 2000 of them, in order, and all of them if
-- there are no more.
pub push_all-alarms :
    (new : List AlarmRecord) → (push_all new empty_store).alarms ≡ last max_alarms new
push_all-alarms new = push_all-last new empty_store [] refl
