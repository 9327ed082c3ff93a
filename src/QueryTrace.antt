-- ===== src/QueryTrace.antt =====
-- ethportal-api/src/types/query_trace.rs. A node id is a number, as a key of a hash map, and an instant
-- a number of milliseconds; the clock is the argument `now`.
pub mod Seen
pub mod Recorded
use trin.Prelude.{
  ℕ, ◌-◌, ◌^◌, Bool, true, false, not, ◌&&◌, ◌||◌, Option, none, some, List, [], ◌∷◌, ◌++◌, ltb,
  ◌==◌, map, if◌then◌else◌,
}
use trin.HashMap
use trin.HashMap.{HashMap}
use trin.Distance.{xor_distance}

-- What is read of an ENR, and the integers of 256 bits.
pub record EnrCrate (Enr : Type 0) : Type 0 where
  pub node_id : Enr → ℕ
  pub raw : ℕ → List ℕ
  pub seq : Enr → ℕ
  pub is_same : Enr → Enr → Bool
  pub from_big_endian : List ℕ → ℕ
  pub big_endian : ℕ → List ℕ

pub record QueryResponse : Type 0 where
  pub duration_ms : ℕ
  pub responded_with : List ℕ

pub record NodeInfo (Enr : Type 0) : Type 0 where
  pub enr : Enr
  pub distance : List ℕ

pub record QueryTrace (Enr : Type 0) : Type 0 where
  pub received_from : Option ℕ
  pub origin : ℕ
  pub responses : HashMap QueryResponse
  pub metadata : HashMap (NodeInfo Enr)
  pub started_at_ms : ℕ
  pub target_id : List ℕ
  pub cancelled : List ℕ

abbrev pub u64_max : ℕ
u64_max = 2 ^ 64 - 1

abbrev pub timestamp_millis_u64 : ℕ → ℕ → ℕ
timestamp_millis_u64 now since = if ltb u64_max (now - since) then u64_max else now - since

-- `or_insert_with` of the entry of a response.
abbrev pub response_or_new : ℕ → ℕ → Option QueryResponse → QueryResponse
response_or_new now since none = record {
  duration_ms = timestamp_millis_u64 now since;
  responded_with = [];
}
response_or_new now since (some r) = r

abbrev pub append_ids : QueryResponse → List ℕ → QueryResponse
append_ids r ids = record r { responded_with = r.responded_with ++ ids }

module _ {Enr : Type 0} (crate_ : EnrCrate Enr) where
  unfoldable pub new : ℕ → Enr → List ℕ → QueryTrace Enr
  new now local_enr target_id = record {
    received_from = none;
    origin = crate_.node_id local_enr;
    responses = [];
    metadata = [];
    started_at_ms = now;
    target_id = target_id;
    cancelled = [];
  }

  abbrev pub get_metadata : Enr → List ℕ → NodeInfo Enr
  get_metadata enr target = record {
    enr = enr;
    distance =
        crate_.big_endian
          (xor_distance crate_.from_big_endian (crate_.raw (crate_.node_id enr)) target);
  }

  -- Whether the ENR takes the place of the one that is known.
  abbrev pub is_newer : Enr → Enr → Bool → Bool
  is_newer enr known node_responded =
      not (crate_.is_same enr known)
      && (((crate_.seq enr == crate_.seq known) && node_responded)
          || ltb (crate_.seq known) (crate_.seq enr))

  -- `and_modify` and `or_insert_with` of the entry.
  abbrev pub put_metadata :
      Option (NodeInfo Enr) → Enr → Bool → List ℕ → HashMap (NodeInfo Enr) → HashMap (NodeInfo Enr)
  put_metadata none enr node_responded target m =
      HashMap.insert (crate_.node_id enr) (get_metadata enr target) m
  put_metadata (some node_info) enr node_responded target m =
      if is_newer enr node_info.enr node_responded
      then HashMap.insert (crate_.node_id enr) (get_metadata enr target) m
      else m

  unfoldable pub add_metadata : QueryTrace Enr → Enr → Bool → QueryTrace Enr
  add_metadata t enr node_responded = record t {
    metadata =
        put_metadata (HashMap.get (crate_.node_id enr) t.metadata) enr node_responded t.target_id
          t.metadata;
  }

  -- The map over the ENRs of a response.
  abbrev pub add_all : QueryTrace Enr → List Enr → QueryTrace Enr
  add_all t [] = t
  add_all t (enr ∷ enrs) = add_all (add_metadata t enr false) enrs

  unfoldable pub node_responded_with : ℕ → QueryTrace Enr → Enr → List Enr → QueryTrace Enr
  unfolding add_metadata
  node_responded_with now t enr responded_with =
      let t' = add_all t responded_with in
      let node_id = crate_.node_id enr in
      let response = response_or_new now t'.started_at_ms (HashMap.get node_id t'.responses) in
      add_metadata
        (record t' {
          responses =
              HashMap.insert node_id (append_ids response (map crate_.node_id responded_with))
                t'.responses;
        })
        enr true

  unfoldable pub node_responded_with_content : ℕ → QueryTrace Enr → Enr → QueryTrace Enr
  unfolding add_metadata
  node_responded_with_content now t enr =
      let node_id = crate_.node_id enr in
      let response : QueryResponse = record {
        duration_ms = timestamp_millis_u64 now t.started_at_ms;
        responded_with = [];
      } in
      add_metadata
        (record t {
          received_from = some node_id;
          responses = HashMap.insert node_id response t.responses;
        })
        enr true
