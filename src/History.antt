-- ===== src/History.antt =====
-- The candles of a chart and their buffer: the effects of frontend-chart/src/App.tsx that load
-- candles, prepend older ones and flush the buffer of the stream. The two charts of the source have
-- the same code, once with each suffix 0 and 1; the model is of one chart.
--
-- An event sees the state that the last one has set, as when React renders between any two events.
-- Requests to the backend are explicit: a step starts one, and its answer is a later event. What
-- the other states of App.tsx hold (the list of pairs, trades, order book, connection status) is
-- left out.
pub mod Window
pub mod Chart
pub mod Order
pub mod Bounds
pub mod Requests
mod Tests
