-- ===== src/Pods/Edges.antt =====
-- The names of pods that are sent to the address controller: `updatePodStatus` of
-- pkg/broker/status/status.go.
use activemq_artemis_operato.Pods.{
  DeploymentStatus, StatefulSet, pods_of, last_status, update_pod_status, notices,
}
use activemq_artemis_operato.Base.{
  String, Bool, true, false, not, Option, some, List, [], ◌∷◌, ◌++◌, ◌≡◌, refl, arith, inl, inr,
  Bool-cases, is_empty, ◌=?◌, Memᴰ, sym, concat, false≢true,
}
use activemq_artemis_operato.Errors.{Result, ok, err}

-- The stateful set is there and has a replica that is ready.
abbrev pub is_pod_ready : Result StatefulSet → Bool
is_pod_ready (err e) = false
is_pod_ready (ok set) = not (set.ready_replicas =? 0)

-- The pod of a stateful set that was read and had a ready replica is among the names that are sent.
pub record IsTold (sets : List (Result StatefulSet)) (names : List (Option String)) : Type 0 where
  pub seen : StatefulSet
  pub read : Memᴰ (ok seen) sets
  pub ready : is_pod_ready (ok seen) ≡ true
  pub told : Memᴰ (some (concat (seen.name ∷ "-0" ∷ []))) names

sent_ready :
    (entry : Option DeploymentStatus) (set : StatefulSet)
    → is_empty (last_status entry).ready ≡ true
    → is_pod_ready (ok set) ≡ true
    → (update_pod_status entry (ok set)).sent ≡ some (concat (set.name ∷ "-0" ∷ []))
unfolding update_pod_status pods_of
sent_ready entry set h r = elim (Bool-cases (set.ready_replicas =? 0)) [
  | inl z ↦ absurd (ground (arith, r, z))
  | inr z ↦ rw z (rw h refl)
]

status_not_ready :
    (entry : Option DeploymentStatus) (set : Result StatefulSet)
    → is_pod_ready set ≡ false
    → is_empty (update_pod_status entry set).status.ready ≡ true
unfolding update_pod_status pods_of
status_not_ready entry (err e) h = refl
status_not_ready entry (ok set) h = elim (Bool-cases (set.ready_replicas =? 0)) [
  | inl z ↦ rw z refl
  | inr z ↦ absurd (ground (arith, h, z))
]

IsTold-first :
    (entry : Option DeploymentStatus) (set : Result StatefulSet) (sets : List (Result StatefulSet))
    → is_empty (last_status entry).ready ≡ true
    → is_pod_ready set ≡ true
    → IsTold (set ∷ sets) (notices entry (set ∷ sets))
unfolding notices
IsTold-first entry (err e) sets h r = absurd (false≢true r)
IsTold-first entry (ok set) sets h r = record {
  seen = set;
  read = Memᴰ.head refl;
  ready = r;
  told = Memᴰ.head (sym (sent_ready entry set h r));
}

IsTold-later :
    (set : Result StatefulSet) (sets : List (Result StatefulSet)) (name : Option String)
    (names : List (Option String))
    → IsTold sets names
    → IsTold (set ∷ sets) (name ∷ names)
IsTold-later set sets name names t = record {
  seen = t.seen;
  read = Memᴰ.tail t.read;
  ready = t.ready;
  told = Memᴰ.tail t.told;
}

-- Where a broker was last seen without a ready pod, and after any number of reconciles its stateful set
-- is read with a ready replica, the address controller has by then been sent the name of a pod: the pod
-- of a stateful set that was read with a ready replica, by its name.
pub notices-rising :
    (entry : Option DeploymentStatus) (between : List (Result StatefulSet))
    (set : Result StatefulSet)
    → is_empty (last_status entry).ready ≡ true
    → is_pod_ready set ≡ true
    → IsTold (between ++ set ∷ []) (notices entry (between ++ set ∷ []))
unfolding notices
notices-rising entry [] set h r = IsTold-first entry set [] h r
notices-rising entry (first ∷ between) set h r = elim (Bool-cases (is_pod_ready first)) [
  | inl e ↦ IsTold-first entry first (between ++ set ∷ []) h e
  | inr e ↦
      IsTold-later first (between ++ set ∷ []) (update_pod_status entry first).sent
        (notices (some (update_pod_status entry first).status) (between ++ set ∷ []))
        (notices-rising (some (update_pod_status entry first).status) between set
          (status_not_ready entry first e) r)
]
