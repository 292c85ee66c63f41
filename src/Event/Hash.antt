-- ===== src/Event/Hash.antt =====
-- ComputeIntegrityHash and sortedExtensions of internal/cloudevents/canonical.go.
use evidra_gitops.Base.{String, Bool, Option, none, some, str_ltb}
use evidra_gitops.Base.Dict.{Dict}
use evidra_gitops.Base.Sort.{sort_by}
use evidra_gitops.Value.{Value}
use evidra_gitops.Event.{StoredEvent}
use evidra_gitops.Event.Platform.{Platform, Canonical}

abbrev pub key_less : String × Value → String × Value → Bool
key_less (j, v) (k, w) = str_ltb j k

-- The map filled in the order of its sorted keys.
unfoldable pub sorted_extensions : Dict Value → Dict Value
unfolding sort_by
sorted_extensions ext = sort_by key_less ext

unfoldable pub canonical : Platform → StoredEvent → Canonical
unfolding sorted_extensions
canonical p e = record {
  spec_version = "1.0";
  id = e.id;
  source = e.source;
  type = e.type;
  subject = e.subject;
  time = p.format_nano e.time;
  extensions = sorted_extensions e.extensions;
  payload = e.payload;
}

-- `none` is an error of `json.Marshal`.
unfoldable pub compute_integrity_hash : Platform → StoredEvent → Option String
unfolding canonical
compute_integrity_hash p e = elim (p.marshal_canonical (canonical p e)) [
  | none ↦ none
  | some b ↦ some (p.sha256_hex b)
]
