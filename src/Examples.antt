-- ===== src/Examples.antt =====
-- The theorems at concrete inputs, part by part.
mod Data
mod CodecRuns
mod ClientRuns
mod ProbeRuns
mod RecordRuns
mod TunnelRuns
mod PeerRuns
mod ConfigRuns
mod ServiceRuns
mod AppRuns
