-- ===== src/HashChain/Link.antt =====
-- internal/plugin/hashchain/hashchain.go: Canonical, Hash, Genesis and PreStore. Three functions of
-- the Go library are parameters: the SHA-256 digest of some bytes, the JSON text of a value
-- (internal/diff/canonical.go, none where the encoder fails) and the text of a time.
use letopis.Prelude.{
  ℕ, ◌+◌, ◌-◌, ◌/◌, ◌%◌, Str, codes, true, false, Option, none, some, List, [], ◌∷◌, ◌++◌, ltb,
  ◌==◌, if◌then◌else◌,
}
use letopis.Prelude.Int.{pos}
use letopis.Json.{Value, str, int64, arr, obj, Items, nil, cons, Fields, end}
use letopis.Json.Object.{put}
use letopis.Diff.Model.{Op, add, change, remove, Change}
use letopis.Domain.Event.{EntityOp, FlowRef, Flow, Integrity, Event}
use letopis.Plugin.Host.{Plugin, PreStore, EntityView}

abbrev pub op_name : EntityOp → Str
op_name EntityOp.unset = []
op_name EntityOp.create = codes "create"
op_name EntityOp.update = codes "update"
op_name EntityOp.delete = codes "delete"
op_name (EntityOp.other s) = s

abbrev pub change_op_name : Op → Str
change_op_name add = codes "add"
change_op_name change = codes "change"
change_op_name remove = codes "remove"
change_op_name (Op.other s) = s

-- Canonical's steps of the form `if s != "" { m[key] = s }`
abbrev pub put_text : Str → Str → Fields → Fields
put_text key [] m = m
put_text key (c ∷ cs) m = put key (str (c ∷ cs)) m

-- `if r.Version != 0`
abbrev pub put_version : ℕ → Fields → Fields
put_version v m = if v == 0 then m else put (codes "version") (int64 (pos v)) m

unfoldable pub canonical_change : Change → Value
unfolding put
canonical_change c =
    let m = put (codes "path") (str c.path) (put (codes "op") (str (change_op_name c.op)) end) in
    obj (elim (c.op) [
      | add ↦ put (codes "new") c.new m
      | remove ↦ put (codes "old") c.old m
      | _ ↦ put (codes "new") c.new (put (codes "old") c.old m)
    ])

unfoldable pub canonical_changes : List Change → Items
unfolding canonical_change
canonical_changes [] = nil
canonical_changes (c ∷ cs) = cons (canonical_change c) (canonical_changes cs)

unfoldable pub canonical_ref : FlowRef → Fields
unfolding put
canonical_ref r = put_text (codes "event_id") r.event_id (
    put_version r.version (
      put_text (codes "entity_id") r.entity_id (
        put_text (codes "collection") r.collection
          (put_text (codes "activity_id") r.activity_id end))))

unfoldable pub canonical_refs : List FlowRef → Items
unfolding canonical_ref
canonical_refs [] = nil
canonical_refs (r ∷ rs) = cons (obj (canonical_ref r)) (canonical_refs rs)

-- `if len(f.CausedBy) > 0`
abbrev pub put_refs : List FlowRef → Fields → Fields
put_refs [] m = m
put_refs (r ∷ rs) m = put (codes "caused_by") (arr (canonical_refs (r ∷ rs))) m

unfoldable pub canonical_flow : Flow → Fields
unfolding put canonical_refs
canonical_flow f =
    put_refs f.caused_by (put_text (codes "step") f.step (put_text (codes "id") f.id end))

abbrev pub put_changes : List Change → Fields → Fields
put_changes [] m = m
put_changes (c ∷ cs) m = put (codes "changes") (arr (canonical_changes (c ∷ cs))) m

abbrev pub put_flow : Option Flow → Fields → Fields
put_flow none m = m
put_flow (some f) m = put (codes "flow") (obj (canonical_flow f)) m

-- encoding/hex
abbrev pub hex_digit : ℕ → ℕ
hex_digit n = if ltb n 10 then b'0' + n else b'a' + (n - 10)

unfoldable pub hex : Str → Str
hex [] = []
hex (x ∷ xs) = hex_digit (x / 16) ∷ hex_digit (x % 16) ∷ hex xs

abbrev pub genesis_prefix : Str
genesis_prefix = codes "letopis:genesis:v1:"

abbrev pub hash_scheme : Str
hash_scheme = codes "sha256:"

-- `t.UTC().Truncate(time.Millisecond)`, on nanoseconds
abbrev pub truncate_millis : ℕ → ℕ
truncate_millis t = t - t % 1000000

module _ (sha256 : Str → Str) (json_text : Value → Option Str) (format_time : ℕ → Str) where
  -- `if !p.TSSource.IsZero()`
  abbrev pub put_time : ℕ → Fields → Fields
  put_time t m =
      if t == 0 then m else put (codes "ts_source") (str (format_time (truncate_millis t))) m

  -- ProjectionFromEvent and the map that Canonical builds from it
  unfoldable pub projection : Event → Fields
  unfolding put canonical_changes canonical_flow
  projection ev = put_flow ev.flow (
      put_time ev.ts_source (
        put_text (codes "source") ev.source (
          put_text (codes "author") ev.author (
            put_changes ev.changes (
              put (codes "entity_id") (str ev.entity_id)
                (put (codes "op") (str (op_name ev.op)) end))))))

  unfoldable pub canonical : Event → Option Str
  unfolding projection
  canonical ev = json_text (obj (projection ev))

  unfoldable pub genesis : Str → Str
  unfolding hex
  genesis collection = hash_scheme ++ hex (sha256 (genesis_prefix ++ collection))

  -- what Hash does once Canonical has given the text
  unfoldable pub seal : Str → Str → Str
  unfolding hex
  seal prev text = hash_scheme ++ hex (sha256 (prev ++ text))

  abbrev pub seal_text : Str → Option Str → Option Str
  seal_text prev none = none
  seal_text prev (some text) = some (seal prev text)

  unfoldable pub hash : Str → Event → Option Str
  unfolding canonical seal
  hash prev ev = seal_text prev (canonical ev)

  -- the hash that an event is linked to, where the integrity block has one
  abbrev pub hash_or : Str → Option Integrity → Str
  hash_or default none = default
  hash_or default (some i) = elim (i.hash) [ [] ↦ default | c ∷ cs ↦ i.hash ]

  abbrev pub link_or : Str → Option Event → Str
  link_or default none = default
  link_or default (some ev) = hash_or default ev.integrity

  -- an error leaves the draft as it was
  abbrev pub seal_draft : Str → Event → Option Str → PreStore
  seal_draft prev ev none = record { integrity = ev.integrity; meta = ev.meta; failed = true }
  seal_draft prev ev (some h) = record {
    integrity = some (record { hash = h; prev_hash = prev });
    meta = ev.meta;
    failed = false;
  }

  unfoldable pub pre_store : Str → Event → EntityView → PreStore
  unfolding genesis hash
  pre_store collection ev prev =
      let prev_hash = link_or (genesis collection) prev.last_event in
      seal_draft prev_hash ev (hash prev_hash ev)

  abbrev pub hash_chain : Plugin
  hash_chain = record { name = codes "hash_chain"; pre_store = pre_store }
