-- ===== src/Store/Order.antt =====
-- The order of sortStoredEvents of internal/store/store.go, and the events that it tells apart.
use evidra_gitops.Base.{
  ℕ, String, ◌≡◌, true, false, ◌==◌, arith, eq_iff, Bool-cases, inl, inr, str_ltb,
}
use evidra_gitops.Base.Order.{
  str_ltb_irrefl, str_ltb_asymm, str_ltb_trans, str_ltb_weak, str_ltb_total,
}
use evidra_gitops.Base.Dict.{values}
use evidra_gitops.Base.Sort.Laws.{IsOrder}
use evidra_gitops.Base.Sort.Distinct.{differ, IsDistinct, select-IsDistinct}
use evidra_gitops.Base.Keyed.{IsKeyed, values-IsDistinct}
use evidra_gitops.Event.{StoredEvent}
use evidra_gitops.Store.{MemoryRepository, event_less}
use evidra_gitops.Store.Query.{TimelineQuery, kept}
use evidra_gitops.Store.History.{IsWellFormed}

pub event_less-IsOrder : IsOrder event_less
unfolding event_less
event_less-IsOrder = record {
  irrefl = λ a. ground (arith, str_ltb_irrefl a.id);
  asymm = λ a b h. ground (arith, str_ltb_asymm a.id b.id);
  trans = λ a b c h k. ground (arith, str_ltb_trans a.id b.id c.id);
  weak = λ a b c h k. ground (arith, str_ltb_weak a.id b.id c.id);
}

-- Events with different ids are told apart.
pub event_differ : (a b : StoredEvent) → (a.id == b.id) ≡ false → differ event_less a b ≡ true
unfolding event_less
event_differ a b h = elim (Bool-cases (str_ltb a.id b.id)) [
  | inl first ↦ ground arith
  | inr e ↦ elim (str_ltb_total a.id b.id e) [
    | inl same ↦ absurd (ground (arith, eq_iff a.id b.id))
    | inr second ↦ ground arith
  ]
]

module _ (m : MemoryRepository) (w : IsWellFormed m) where
  -- The events of a repository have different ids.
  pub events-IsDistinct : IsDistinct event_less (values m.events)
  unfolding IsKeyed
  events-IsDistinct =
      values-IsDistinct (λ (e : StoredEvent). e.id) event_less event_differ m.events w.once w.keyed

  pub kept-IsDistinct :
      (q : TimelineQuery) (ts : ℕ) (id : String) → IsDistinct event_less (kept q ts id m)
  unfolding kept
  kept-IsDistinct q ts id = select-IsDistinct event_less _ (values m.events) events-IsDistinct
