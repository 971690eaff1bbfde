-- ===== src/Candidates/Freshness.antt =====
-- What `is_fresh_dht_timestamp` of src/candidates.rs lets through.
use p2p_tunnler.Prelude.{◌+◌, ◌≤◌, ◌≡◌, ◌↔◌, true, arith}
use p2p_tunnler.Candidates.Types.{SystemTime, max_dht_message_age, max_dht_future_skew}
use p2p_tunnler.Candidates.Filter.{is_fresh_dht_timestamp}

-- A message is fresh exactly from ten minutes after its timestamp back to five minutes before it, both
-- limits included.
pub is_fresh_dht_timestamp_iff :
    (timestamp now : SystemTime)
    → (is_fresh_dht_timestamp timestamp now ≡ true)
      ↔ ((timestamp ≤ now + max_dht_future_skew) × (now ≤ timestamp + max_dht_message_age))
unfolding is_fresh_dht_timestamp
is_fresh_dht_timestamp_iff timestamp now = ground arith
