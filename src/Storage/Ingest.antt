-- ===== src/Storage/Ingest.antt =====
-- src/storage/fjall.rs: identifiers, and the inbox of events.
use disaster_alert.Prelude.{
  ℕ, ◌+◌, ◌-◌, ◌^◌, Bool, true, false, ◌&&◌, Option, none, some, List, [], ◌∷◌, ◌++◌, ◌==◌, leb,
  if◌then◌else◌, length,
}
use disaster_alert.Prelude.Int.{ℤ}
use disaster_alert.Text.{Text, text}
use disaster_alert.Event.{ProviderChannel, wolfx, huania, fan_studio, DisasterEvent, category_eq}
use disaster_alert.Event.Digest.{as_bytes}
use disaster_alert.Sources.{SourceDefinition, find_source, find_provider, channel_eq}
use disaster_alert.Incident.{IncidentCapacity}
use disaster_alert.Storage.{
  Store, InboxItem, RejectedInboxItem, Codec, ids_exhausted, inbox_batch_oversized, unknown_cursor,
  inbox_item_disagrees, Result, ok, err, ◌>>◌, encode,
}
use disaster_alert.Storage.Keyspace.{Map, get, insert, remove, nat_key, text_key}

abbrev pub get_id : Option ℕ → ℕ
get_id none = 0
get_id (some n) = n

-- `next_id`: the counter is written at once, outside any batch.
unfoldable pub next_id : Text → Store → Result (ℕ × Store)
next_id name s =
    let current = get_id (get s.next_ids name) in
    if current == 2 ^ 64 - 1
    then err ids_exhausted
    else ok (current + 1, record s { next_ids = insert s.next_ids name (current + 1) })

channel_code : ProviderChannel → ℕ
channel_code wolfx = 1
channel_code fan_studio = 2
channel_code huania = 3

unfoldable pub cursor_key : ProviderChannel → Text → Text
unfolding as_bytes channel_code
cursor_key provider stream =
    as_bytes (text "cursor:") ++ (channel_code provider ∷ b':' ∷ as_bytes stream)

is_some : Option SourceDefinition → Bool
is_some none = false
is_some (some d) = true

-- The registry's entry agrees with the event and its provider.
unfoldable pub source_agrees : ProviderChannel → DisasterEvent → Bool
unfolding find_source channel_eq category_eq
source_agrees provider e = channel_eq e.channel provider && elim (find_source e.source) [
  | none ↦ false
  | some source ↦ channel_eq source.channel provider && category_eq source.category e.category
]

module _ (c : Codec) (provider : ProviderChannel) (received_at_ms : ℤ) where
  -- The loop over the events. `batch` is the inbox as the write batch would leave it.
  unfoldable pub ingest_events :
      List DisasterEvent
      → Map ℕ InboxItem
      → List ℕ
      → Store
      → Store × Result (Map ℕ InboxItem × List ℕ)
  unfolding source_agrees next_id encode
  ingest_events [] batch ids s = (s, ok (batch, ids))
  ingest_events (e ∷ events) batch ids s =
      if source_agrees provider e
      then elim (next_id (text "inbox") s) [
        | err error ↦ (s, err error)
        | ok (id, s') ↦
            let item : InboxItem = record {
              id = id;
              provider = provider;
              received_at_ms = received_at_ms;
              event = e;
            } in
            let rest = ingest_events events (insert batch id item) (ids ++ id ∷ []) s' in
            elim (encode (c.inbox_item item)) [ err error ↦ (s', err error) | ok _ ↦ rest ]
      ]
      else (s, err inbox_item_disagrees)

  -- The batch is committed at the end: an error before it leaves only the counter moved.
  commit_ingest :
      Option (Text × Text) → Store × Result (Map ℕ InboxItem × List ℕ) → Store × Result (List ℕ)
  unfolding cursor_key
  commit_ingest cursor (s, err error) = (s, err error)
  commit_ingest none (s, ok (batch, ids)) = (record s { inbox = batch }, ok ids)
  commit_ingest (some (stream, value)) (s, ok (batch, ids)) = (
    record s { inbox = batch; cursors = insert s.cursors (cursor_key provider stream) value },
    ok ids,
  )

  cursor_known : Option (Text × Text) → Bool
  unfolding find_provider is_some
  cursor_known none = true
  cursor_known (some (stream, value)) = is_some (find_provider provider stream)

  unfoldable pub ingest_with_cursor :
      List DisasterEvent → Option (Text × Text) → Store → Store × Result (List ℕ)
  unfolding ingest_events commit_ingest cursor_known
  ingest_with_cursor events cursor s =
      if leb (length events) 1024
      then (if cursor_known cursor
          then commit_ingest cursor (ingest_events events s.inbox [] s)
          else (s, err unknown_cursor))
      else (s, err inbox_batch_oversized)

-- `pending_inbox(1)` and its first item: the one with the lowest id.
unfoldable pub first_pending : Store → Option InboxItem
first_pending s = elim s.inbox [ [] ↦ none | (id, item) ∷ rest ↦ some item ]

unfoldable pub complete_inbox : ℕ → Store → Store
complete_inbox inbox_id s = record s { inbox = remove s.inbox inbox_id }

-- `reject_inbox`; the reason is the text of a capacity, which is short.
unfoldable pub reject_inbox : Codec → InboxItem → ℤ → IncidentCapacity → Store → Result Store
unfolding encode
reject_inbox c item now_ms capacity s =
    let rejected : RejectedInboxItem = record {
      item = item;
      rejected_at_ms = now_ms;
      capacity = capacity;
    } in
    do
      encode (c.rejected_item rejected)
      ok (record s {
        rejected_inbox = insert s.rejected_inbox item.id rejected;
        inbox = remove s.inbox item.id;
      })
