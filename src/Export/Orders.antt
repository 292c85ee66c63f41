-- ===== src/Export/Orders.antt =====
-- The evidence pack of internal/export/fs.go does not depend on the order of the events.
use mathlib.Core.Path.{subst}
use mathlib.Core.List.{Permᴰ}
use evidra_gitops.Base.{ℕ, String, ◌<>◌, ◌≡◌, refl, ap, List}
use evidra_gitops.Base.Sort.Laws.{IsOrder}
use evidra_gitops.Base.Sort.Distinct.{IsDistinct, sort_by-perm}
use evidra_gitops.Result.{Result, ok, err}
use evidra_gitops.Event.{StoredEvent}
use evidra_gitops.Event.Platform.{Platform}
use evidra_gitops.Store.{event_less}
use evidra_gitops.Store.Order.{event_less-IsOrder}
use evidra_gitops.Export.{
  ExportLibraries, exported_before, sorted_events, evidence_pack, write_pack, pack_in,
  create_evidence_pack,
}

same_order : event_less ≡ exported_before
unfolding event_less exported_before
same_order = refl

exported_before-IsOrder : IsOrder exported_before
exported_before-IsOrder = subst IsOrder same_order event_less-IsOrder

sorted_events-perm :
    {xs ys : List StoredEvent}
    → Permᴰ xs ys
    → IsDistinct exported_before xs
    → sorted_events xs ≡ sorted_events ys
unfolding sorted_events
sorted_events-perm perm distinct =
    sort_by-perm exported_before exported_before-IsOrder perm distinct

same_pack :
    {D : Type 0} (p : Platform) (l : ExportLibraries D) (base_dir job_id : String) (now later : ℕ)
    (xs ys : List StoredEvent) (made : Result (Unit {0}) × D)
    → sorted_events xs ≡ sorted_events ys
    → pack_in p l base_dir job_id now later xs made ≡ pack_in p l base_dir job_id now later ys made
unfolding pack_in
same_pack p l base_dir job_id now later xs ys (err failure, disk) same = refl
same_pack p l base_dir job_id now later xs ys (ok _, disk) same =
    ap
      (λ events.
        write_pack p l (l.join base_dir (job_id <> ".json")) (evidence_pack p l now later events)
          disk)
      same

-- Two lists of the same events, which time or id tells apart, give the same pack, and so the same
-- checksum and deterministic hash, the same file and the same answer.
pub create_evidence_pack-perm :
    {D : Type 0} (p : Platform) (l : ExportLibraries D) (base_dir job_id : String) (now later : ℕ)
    (disk : D) (xs ys : List StoredEvent)
    → Permᴰ xs ys
    → IsDistinct exported_before xs
    → create_evidence_pack p l base_dir job_id now later xs disk
      ≡ create_evidence_pack p l base_dir job_id now later ys disk
unfolding create_evidence_pack
create_evidence_pack-perm p l base_dir job_id now later disk xs ys perm distinct =
    same_pack p l base_dir job_id now later xs ys (l.make_dir base_dir disk)
      (sorted_events-perm perm distinct)
