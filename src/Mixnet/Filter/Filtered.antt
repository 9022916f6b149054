-- ===== src/Mixnet/Filter/Filtered.antt =====
-- What `filterIncoming` does, in one place.
use gjallarhorn.Prelude.{ℕ, ◌≡◌, List, [], Option, some, get_elem?, length}
use gjallarhorn.Prelude.Bytes.{Bytes}
use gjallarhorn.Mixnet.Filter.{msg_key, filter_incoming}
use gjallarhorn.Mixnet.Filter.Index.{filter_incoming-index, length-filter_from}
use gjallarhorn.Mixnet.Filter.Distinct.{filter_incoming-distinct, filter_incoming_complete}

-- Messages that go on, with an index for each onion, as an outcome for the messages that came in.
pub record IsFiltered (incoming : List (Option Bytes)) (valid : List Bytes)
    (index : List (Option ℕ)) : Type 0 where
  pub same_length : length index ≡ length incoming
  pub distinct :
      (i j : ℕ) (a b : Bytes)
      → get_elem? valid i ≡ some a
      → get_elem? valid j ≡ some b
      → msg_key a ≡ msg_key b
      → i ≡ j
  pub complete :
      (i : ℕ) (m : Bytes)
      → get_elem? incoming i ≡ some (some m)
      → (v : ℕ) × (a : Bytes) × (get_elem? valid v ≡ some a) × (msg_key a ≡ msg_key m)
  pub indexed :
      (i v : ℕ)
      → get_elem? index i ≡ some (some v)
      → (m : Bytes) × (get_elem? incoming i ≡ some (some m)) × (get_elem? valid v ≡ some m)

-- Whatever came in: there is an index, or none, for each onion; an onion's index is the place of its
-- own message among those that go on; no two of these have the same last 8 bytes; and for every
-- message that was decrypted one with the same last 8 bytes goes on.
pub filter_incoming-IsFiltered :
    (incoming : List (Option Bytes))
    → IsFiltered incoming (filter_incoming incoming).0 (filter_incoming incoming).1
unfolding filter_incoming
filter_incoming-IsFiltered incoming = record {
  same_length = length-filter_from incoming [] [];
  distinct = filter_incoming-distinct incoming;
  complete = filter_incoming_complete incoming;
  indexed = filter_incoming-index incoming;
}
