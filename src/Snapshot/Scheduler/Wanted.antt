-- ===== src/Snapshot/Scheduler/Wanted.antt =====
-- The workers that reinitializeAllDevices of ms-poll/internal/usecase/scheduler.go leaves.
use controlitix.Common.{
  String, false, List, [], ◌∷◌, Option, none, some, is_empty, same, if◌then◌else◌, if_elim,
  string_key, ◌≡◌, ◌≢◌, refl, sym, ap, ◌∙◌, subst, arith, In, ◌⊎◌, inl, inr, Option-cases,
  Bool-cases,
}
use controlitix.Common.Map.{Map, get, get-put, get-put_self, get-delete, get-delete_self}
use controlitix.Snapshot.{DeviceSnapshot, Snapshot}
use controlitix.Snapshot.Clone.{entries}
use controlitix.Snapshot.Scheduler.{
  Worker, Workers, get_device_config, started, start_device, stop_device, running_device_ids,
  desired_of, desired_device_ids, stop_devices, start_devices, reinitialize_all_devices,
}

abbrev pub if_tagged : Option Worker → Option Worker
if_tagged none = none
if_tagged (some w) = if is_empty w.tags then none else some w

-- The worker that a device should have: one with its configuration, if it is known and has tags.
abbrev pub wanted : Option Snapshot → String → Option Worker
wanted snapshot id = if_tagged (get_device_config snapshot id)

-- A worker map that holds the wanted worker of `e`, or none of it.
abbrev IsPartial : Option Snapshot → Workers → String → Type 0
IsPartial snapshot workers e = (get workers e ≡ none) ⊎ (get workers e ≡ wanted snapshot e)

pub start_device_other :
    (snapshot : Option Snapshot) (workers : Workers) (d e : String)
    → d ≢ e
    → get (start_device snapshot workers d) e ≡ get workers e
unfolding start_device
start_device_other snapshot workers d e other =
    if_elim (λ x. get x e ≡ get workers e) (same d "") (λ _. refl)
      (λ _. begun (get_device_config snapshot d))
  where
    begun : (m : Option Worker) → get (started workers d m) e ≡ get workers e
    begun none = refl
    begun (some w) =
        if_elim (λ x. get x e ≡ get workers e) (is_empty w.tags) (λ _. refl)
          (λ _. let p = get-put workers d e w in ground arith)

start_device-wanted :
    (snapshot : Option Snapshot) (workers : Workers) (e : String)
    → e ≢ ""
    → IsPartial snapshot workers e
    → get (start_device snapshot workers e) e ≡ wanted snapshot e
unfolding start_device
start_device-wanted snapshot workers e named part =
    if_elim (λ x. get x e ≡ wanted snapshot e) (same e "") (λ blank. absurd (ground arith))
      (λ _. begun (get_device_config snapshot e) part)
  where
    begun :
        (m : Option Worker)
        → (get workers e ≡ none) ⊎ (get workers e ≡ if_tagged m)
        → get (started workers e m) e ≡ if_tagged m
    begun none (inl p) = p
    begun none (inr p) = p
    begun (some w) p = elim (Bool-cases (is_empty w.tags)) [
      | inr tagged ↦ rw tagged (get-put_self workers e w)
      | inl empty ↦ elim p [ inl q ↦ rw empty q | inr q ↦ rw empty (q ∙ rw empty refl) ]
    ]

start_devices-wanted :
    (snapshot : Option Snapshot) (workers : Workers) (ids : List String) (e : String)
    → e ≢ ""
    → IsPartial snapshot workers e
    → In e ids ⊎ (get workers e ≡ wanted snapshot e)
    → get (start_devices snapshot workers ids) e ≡ wanted snapshot e
unfolding start_devices
start_devices-wanted snapshot workers [] e named part (inl m) = elim m [ ]
start_devices-wanted snapshot workers [] e named part (inr h) = h
start_devices-wanted snapshot workers (d ∷ ids) e named part due = elim (string_key.eq? d e) [
  | yes q ↦
      let now : get (start_device snapshot workers d) e ≡ wanted snapshot e =
        subst (λ x. get (start_device snapshot workers x) e ≡ wanted snapshot e) (sym q)
          (start_device-wanted snapshot workers e named part) in
      start_devices-wanted snapshot (start_device snapshot workers d) ids e named (inr now)
        (inr now)
  | no n ↦
      let kept = start_device_other snapshot workers d e n in
      start_devices-wanted snapshot (start_device snapshot workers d) ids e named
        (carried part kept) (left n due kept)
]
  where
    carried :
        {x : Option Worker}
        → IsPartial snapshot workers e
        → x ≡ get workers e
        → (x ≡ none) ⊎ (x ≡ wanted snapshot e)
    carried (inl p) kept = inl (kept ∙ p)
    carried (inr p) kept = inr (kept ∙ p)

    left :
        {x : Option Worker}
        → d ≢ e
        → In e (d ∷ ids) ⊎ (get workers e ≡ wanted snapshot e)
        → x ≡ get workers e
        → In e ids ⊎ (x ≡ wanted snapshot e)
    left n (inl (inl q)) kept = absurd (n q)
    left n (inl (inr m)) kept = inl m
    left n (inr h) kept = inr (kept ∙ h)

stop_device_self : (workers : Workers) (e : String) → e ≢ "" → get (stop_device workers e) e ≡ none
unfolding stop_device
stop_device_self workers e named =
    if_elim (λ (x : Workers). get x e ≡ none) (same e "") (λ blank. absurd (ground arith))
      (λ _. get-delete_self workers e)

pub stop_device_other :
    (workers : Workers) (d e : String) → d ≢ e → get (stop_device workers d) e ≡ get workers e
unfolding stop_device
stop_device_other workers d e other =
    if_elim (λ x. get x e ≡ get workers e) (same d "") (λ _. refl)
      (λ _. let p = get-delete workers d e in ground arith)

stop_devices-none :
    (workers : Workers) (ids : List String) (e : String)
    → e ≢ ""
    → In e ids ⊎ (get workers e ≡ none)
    → get (stop_devices workers ids) e ≡ none
unfolding stop_devices
stop_devices-none workers [] e named (inl m) = elim m [ ]
stop_devices-none workers [] e named (inr h) = h
stop_devices-none workers (d ∷ ids) e named due = elim (string_key.eq? d e) [
  | yes q ↦ stop_devices-none (stop_device workers d) ids e named (
      inr (
        subst (λ x. get (stop_device workers x) e ≡ none) (sym q)
          (stop_device_self workers e named)))
  | no n ↦ stop_devices-none (stop_device workers d) ids e named (left n due)
]
  where
    left :
        d ≢ e
        → In e (d ∷ ids) ⊎ (get workers e ≡ none)
        → In e ids ⊎ (get (stop_device workers d) e ≡ none)
    left n (inl (inl q)) = absurd (n q)
    left n (inl (inr m)) = inl m
    left n (inr h) = inr (stop_device_other workers d e n ∙ h)

running_device_ids-In :
    (workers : Workers) (e : String) → In e (running_device_ids workers) ⊎ (get workers e ≡ none)
unfolding running_device_ids get
running_device_ids-In [] e = inr refl
running_device_ids-In ((d, w) ∷ workers) e = elim (string_key.eq? d e) [
  | yes q ↦ inl (inl q)
  | no n ↦ elim (running_device_ids-In workers e) [
    | inl m ↦ inl (inr m)
    | inr h ↦ inr (ground arith)
  ]
]

desired_of-In :
    (s : Snapshot) (devices : Map String DeviceSnapshot) (e : String) {device : DeviceSnapshot}
    → get devices e ≡ some device
    → is_empty (entries s.tags_by_device e) ≡ false
    → In e (desired_of s devices)
unfolding desired_of get
desired_of-In s [] e h tagged = cc
desired_of-In s ((d, v) ∷ devices) e {device} h tagged = elim (string_key.eq? d e) [
  | yes q ↦
      let tagged' : is_empty (entries s.tags_by_device d) ≡ false =
        ap (λ x. is_empty (entries s.tags_by_device x)) q ∙ tagged in
      if_elim (λ ids. In e ids) (is_empty (entries s.tags_by_device d))
        (λ bad. absurd (ground arith)) (λ _. inl q)
  | no n ↦
      let rest = desired_of-In s devices e {device = device} (ground arith) tagged in
      if_elim (λ ids. In e ids) (is_empty (entries s.tags_by_device d)) (λ _. rest) (λ _. inr rest)
]

-- Every wanted device is among those that are started.
desired-wanted :
    (snapshot : Option Snapshot) (e : String)
    → In e (desired_device_ids snapshot) ⊎ (wanted snapshot e ≡ none)
unfolding desired_device_ids get_device_config
desired-wanted none e = inr refl
desired-wanted (some s) e = elim (Option-cases (get s.devices e)) [
  | inl h ↦ inr (rw h refl)
  | inr (device, h) ↦ elim (Bool-cases (is_empty (entries s.tags_by_device e))) [
    | inl empty ↦ inr (rw h (rw empty refl))
    | inr tagged ↦ inl (desired_of-In s s.devices e h tagged)
  ]
]

module _ (sort : List String → List String) where
  -- Whatever ran before: after a reinitialisation each device with an identifier that is not empty
  -- runs with exactly its configuration in the store if it is known there and has tags, and does
  -- not run otherwise. Sorting is assumed to lose nothing.
  pub reinitialize_all_devices-wanted :
      (snapshot : Option Snapshot) (workers : Workers) (id : String)
      → ((xs : List String) (x : String) → In x xs → In x (sort xs))
      → id ≢ ""
      → get (reinitialize_all_devices sort snapshot workers) id ≡ wanted snapshot id
  unfolding reinitialize_all_devices
  reinitialize_all_devices-wanted snapshot workers id keeps named =
      let stopped =
        stop_devices-none workers (running_device_ids workers) id named
          (running_device_ids-In workers id) in
      start_devices-wanted snapshot (stop_devices workers (running_device_ids workers))
        (sort (desired_device_ids snapshot)) id named (inl stopped)
        (elim (desired-wanted snapshot id) [
          | inl m ↦ inl (keeps (desired_device_ids snapshot) id m)
          | inr h ↦ inr (stopped ∙ sym h)
        ])
