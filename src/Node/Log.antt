-- ===== src/Node/Log.antt =====
-- src/node.rs, `Log`: the most recent entries, oldest first, at most `capacity` of them.
use avicoin.Prelude.{
  ℕ, zero, suc, ◌+◌, ◌-◌, ◌≤◌, ◌≡◌, refl, sym, ap, ◌∙◌, List, [], ◌∷◌, ◌++◌, arith, ltb,
  if◌then◌else◌, length, drop, length-append, length-drop, drop-append_of_le, drop-drop,
  append_assoc, append-nil, inl, inr, Bool-cases, ltb→lt, ltb→le,
}

abbrev pub log_capacity : ℕ
log_capacity = 512

pub record Log (E : Type 0) : Type 0 where
  pub entries : List E
  pub capacity : ℕ

module _ {E : Type 0} where
  unfoldable pub new_log : ℕ → Log E
  new_log capacity = record { entries = []; capacity = capacity }

  -- `while self.entries.len() > self.capacity { self.entries.pop_front(); }`
  unfoldable pub evict : ℕ → List E → List E
  evict capacity [] = []
  evict capacity (e ∷ entries) =
      if ltb capacity (length (e ∷ entries)) then evict capacity entries else e ∷ entries

  unfoldable pub push : Log E → E → Log E
  push log entry = record log { entries = evict log.capacity (log.entries ++ entry ∷ []) }

  unfoldable pub push_all : Log E → List E → Log E
  push_all log [] = log
  push_all log (e ∷ entries) = push_all (push log e) entries

  evict-drop :
      (capacity : ℕ) (entries : List E)
      → evict capacity entries ≡ drop (length entries - capacity) entries
  unfolding evict
  evict-drop capacity [] = nothing (0 - capacity)
    where
      nothing : (n : ℕ) → ◌≡◌ {A = List E} [] (drop n [])
      nothing zero = refl
      nothing (suc n) = refl
  evict-drop capacity (e ∷ entries) = elim (Bool-cases (ltb capacity (length (e ∷ entries)))) [
    | inl over ↦
        let count : suc (length entries - capacity) ≡ suc (length entries) - capacity =
          omega (arith, ltb→lt _ _ over) in
        rw (over, evict) (evict-drop capacity entries ∙ ap (λ n. drop n (e ∷ entries)) count)
    | inr fits ↦
        let count : 0 ≡ suc (length entries) - capacity = omega (arith, ltb→le _ _ fits) in
        rw (fits, evict) (ap (λ n. drop n (e ∷ entries)) count)
  ]

  abbrev IsBounded : Log E → Type 0
  IsBounded log = length log.entries ≤ log.capacity

  push-IsBounded : (log : Log E) (entry : E) → IsBounded (push log entry)
  unfolding push
  push-IsBounded log entry =
      rw (evict-drop log.capacity (log.entries ++ entry ∷ [])) (rw length-drop (omega arith))

  -- The last `capacity` entries.
  abbrev pub recent : ℕ → List E → List E
  recent capacity entries = drop (length entries - capacity) entries

  recent-drop :
      (capacity n : ℕ) (entries : List E)
      → n ≤ length entries - capacity
      → recent capacity (drop n entries) ≡ recent capacity entries
  recent-drop capacity n entries h =
      let count : n + (length (drop n entries) - capacity) ≡ length entries - capacity =
        omega (arith, length-drop n entries) in
      sym (drop-drop n (length (drop n entries) - capacity) entries)
      ∙ ap (λ k. drop k entries) count

  -- What an earlier eviction took is not among the last entries.
  recent-recent :
      (capacity : ℕ) (front entries : List E)
      → recent capacity (recent capacity front ++ entries) ≡ recent capacity (front ++ entries)
  recent-recent capacity front entries =
      ap (recent capacity)
        (sym (drop-append_of_le (length front - capacity) front entries (omega arith)))
      ∙ recent-drop capacity (length front - capacity) (front ++ entries)
          (omega (arith, length-append front entries))

  recent_all :
      (capacity : ℕ) (entries : List E)
      → length entries ≤ capacity
      → recent capacity entries ≡ entries
  recent_all capacity entries h =
      let count : length entries - capacity ≡ 0 = omega arith in ap (λ n. drop n entries) count

  -- After any number of pushes a log holds the last of all its entries, as many as its capacity
  -- allows, in the order in which they came.
  pub push_all-recent :
      (log : Log E) (entries : List E)
      → length log.entries ≤ log.capacity
      → (push_all log entries).entries ≡ recent log.capacity (log.entries ++ entries)
  unfolding push_all push
  push_all-recent log [] h =
      sym (recent_all log.capacity log.entries h)
      ∙ ap (recent log.capacity) (sym (append-nil log.entries))
  push_all-recent log (e ∷ entries) h =
      push_all-recent (push log e) entries (push-IsBounded log e)
      ∙ ap (λ front. recent log.capacity (front ++ entries))
          (evict-drop log.capacity (log.entries ++ e ∷ []))
      ∙ recent-recent log.capacity (log.entries ++ e ∷ []) entries
      ∙ ap (recent log.capacity) (append_assoc log.entries (e ∷ []) entries)
