-- ===== src/HotTier/Feed.antt =====
-- The feeds that write to the store: crates/hot-tier/src/lib.rs, `SoftwareFeedAdapter`, and
-- crates/hot-tier/src/binance.rs, `process_batch`. The websocket of `BinanceFeedAdapter::run` is
-- left out.
pub mod Software
pub mod Binance
