-- ===== src/Providers/Kubernetes/Collector/Taking.antt =====
-- The events that internal/providers/kubernetes/collector.go makes have ids, types and times, and are
-- hashed.
use text.Mathlib.TextLemmas.{append-eq-nil_iff}
use evidra_gitops.Base.{
  ℕ, String, ◌≡◌, ◌≢◌, refl, false, some, arith, inl, inr, Bool-cases, eq_iff, eqb, ◌==◌,
  trim_space, ne-eq, equal_fold,
}
use evidra_gitops.Event.{StoredEvent}
use evidra_gitops.Event.Platform.{Platform}
use evidra_gitops.Event.Hash.{compute_integrity_hash, canonical}
use evidra_gitops.Store.{hashed}
use evidra_gitops.Providers.Kubernetes.{
  KubernetesEvent, id_of, kubernetes_type, is_lifecycle_noise, reason_of, event_timestamp,
}
use evidra_gitops.Providers.Kubernetes.Collector.{Printing, collapsed_id}

prefix-ne : ◌≢◌ {A = String} "evt_k8s_" ""
prefix-ne = ground (arith, eq_iff "evt_k8s_" "")

long_prefix-ne : ◌≢◌ {A = String} "evt_k8s_support_" ""
long_prefix-ne = ground (arith, eq_iff "evt_k8s_support_" "")

pub id_of-ne : (p : Platform) (now : ℕ) (e : KubernetesEvent) → (id_of p now e == "") ≡ false
unfolding id_of
id_of-ne p now e = elim (Bool-cases (trim_space e.resource_version == "")) [
  | inl blank ↦ rw blank (ne-eq _ _ (λ h. prefix-ne (append-eq-nil_iff.0 h).0))
  | inr written ↦ rw written (ne-eq _ _ (λ h. prefix-ne (append-eq-nil_iff.0 h).0))
]

pub collapsed_id-ne : (print : Printing) (e : StoredEvent) → (collapsed_id print e == "") ≡ false
unfolding collapsed_id
collapsed_id-ne print e = ne-eq _ _ (λ h. long_prefix-ne (append-eq-nil_iff.0 h).0)

pub kubernetes_type-ne : (e : KubernetesEvent) → (kubernetes_type e == "") ≡ false
unfolding kubernetes_type
kubernetes_type-ne e = elim (Bool-cases (is_lifecycle_noise (reason_of e))) [
  | inl noise ↦ rw noise refl
  | inr other ↦ rw other (elim (Bool-cases (equal_fold (trim_space e.type) "warning")) [
    | inl warning ↦ rw warning refl
    | inr normal ↦ rw normal refl
  ])
]

-- A time is found: one of the event's, or the clock's.
pub event_timestamp-ne :
    (now : ℕ) (e : KubernetesEvent) → eqb now 0 ≡ false → eqb (event_timestamp now e) 0 ≡ false
unfolding event_timestamp
event_timestamp-ne now e later = ground arith

pub hashed_anew :
    (p : Platform) (e : StoredEvent) (s : String)
    → e.integrity_hash ≡ ""
    → p.marshal_canonical (canonical p e) ≡ some s
    → hashed p e ≡ some (record e { integrity_hash = p.sha256_hex s })
unfolding hashed compute_integrity_hash
hashed_anew p e s unhashed made = rw (unhashed, hashed) (rw made refl)
