-- ===== src/Lib.antt =====
-- Verification of the chart front end (frontend-chart/src of the repository): the terminal that
-- shows cluster candles of a trading pair, streams them from the backend, and simulates trading.
--
-- The parts of the program and how they interact. App.tsx keeps the state of two charts. A chart
-- asks the backend for candles (lib/api.ts) when its pair, market, interval or compression changes,
-- and subscribes to the stream of the same key (lib/wsClient.ts); candles of both ways pass through
-- the same mapping, which finds the point of control and the value area. Streamed candles wait in a
-- buffer that a timer flushes into the chart. How many candles a chart keeps, and how many
-- indicators may be active, is given by the limits of the user's tier (lib/tierLimits.ts), whose
-- role the accounts (auth/stubs.ts, App.tsx, components/UserProfile.tsx) keep in local storage. The
-- modal of the indicators (components/IndicatorsModal.tsx) edits a draft of the list that App.tsx
-- saves. The chart itself (components/ClusterChart.tsx) is zoomed and panned, carries the drawings of
-- the user, profiles of volume among them, and marks the clusters that its filters find. The ladder
-- (components/DOMSidebar.tsx) is a trading simulator that runs on the price of a pair. What outlives
-- a page is in local storage, behind the guards of lib/storage.ts.
--
-- The files, with the paths that they model; F is frontend-chart/src:
--   Shared: helpers; text as a list of characters, JavaScript's Map and its stable sort.
--   Number: the numbers of JavaScript as an interface `Num`, the laws of order that proofs use, and
--     `fixed`, the integers in units of 1/10000, which shows that the laws can hold.
--   Candle: F/types.ts and the two copies of mapBackendCandle, in F/lib/wsClient.ts and in
--     F/lib/api.ts.
--   Stream: the class WsClient of F/lib/wsClient.ts and its registry (getOrCreateWsClient,
--     destroyWsClient), as a state with effects and events.
--   Terminal: the two charts of F/App.tsx on their common client, with the connecting and the
--     subscribing effects and their cleanups.
--   History: the loading effect, handleLoadMore0 and the flusher of F/App.tsx, as a state machine.
--   Tiers: defaultTierSettings and getActiveGroupLimits of F/lib/tierLimits.ts, and
--     getMaxCandlesForInterval and parseInterval of F/App.tsx.
--   Accounts: F/auth/stubs.ts, userRole, handleUserRoleChange and handleUpdate of F/App.tsx, and
--     executeDirectUpgrade and the dialog of a payment of F/components/UserProfile.tsx. React applies
--     a queued update after the listeners of an event have run, and AnimatePresence keeps a dialog
--     while it disappears: both are in the model.
--   Indicators: the operations on the draft of F/components/IndicatorsModal.tsx (toggleActive,
--     moveIndicator and the others), and the list that F/App.tsx loads and saves.
--   ClusterSearch: the two filters of F/components/ClusterChart.tsx over the cells of a candle, as
--     the mouse handler and as the drawing compute them.
--   Viewport: the wheel, the zoom buttons, the drags of the scales, the panning and the fit to a
--     symbol of F/components/ClusterChart.tsx (handleWheel, handleResetZoom and the others).
--   Drawings: the drawing tools of F/components/ClusterChart.tsx (handleMouseDown, handleMouseMove,
--     handleMouseUpOrLeave, the Delete key), with the hit tests.
--   Profile: the volume profile that is one of the drawings, with its point of control and its value
--     area, and priceToY.
--   Admin: handleLoadHistory of F/components/AdminPanel.tsx, with the events of a job's progress and
--     the exit from the admin view; the jobs themselves run in the backend.
--   MarketData: F/lib/marketData.ts (fetchBinanceDepth, fetchBinanceKlines,
--     fetchBinanceTicksAndAggregate, getClusterCandles), which no other file imports: candles and an
--     order book that the page makes itself from the answers of an exchange.
--   Workspace: the settings of the two charts in F/App.tsx (how they are read at the start, the
--     setters of the active chart, loadDefaultCompressionForPair, the effects that save them).
--   Pairs: the list of pairs that F/App.tsx reads from the storage and sanitises, and toggleFavorite.
--   Storage: F/lib/storage.ts over a storage and a JSON that may throw.
--   Trading: the buttons of F/components/DOMSidebar.tsx (handleMarketBuy and the others) and its
--     matching effect.
-- A field, function or state of the source keeps its name, in the spelling of this library.
--
-- Numbers. Times, counts, limits and delays are natural numbers; none of them comes near 2 ^ 53,
-- from where on a double would round. Prices, volumes and balances are an arbitrary `Num`, finite:
-- NaN and the infinities are left out. Theorems assume of it nothing, or the laws of a total order
-- and of what adding and rounding keep; no law says that sums or products are exact.
--
-- Loops are recursions over lists. Six have fuel. `decimal`, the printing of a number, has n + 1
-- rounds for the number n, which has no more digits than that. The loop over the value area of a
-- profile has a round for each bin, since each round takes one more bin. The effects on the
-- settings of the charts have three renders after a change; the third has the dependencies of the
-- second, so that nothing is left to do. The loop over the widths has the 118 rounds of the source.
-- The loop that counts the levels of a candlestick breaks after 251 rounds. The loop over the
-- slices of the trades has a round for each trade; with slices of no trades the source never ends,
-- and the model gives `none`.
--
-- Not modelled: rendering, drawing on canvas, styles, translations and pictures; JSON.parse and
-- JSON.stringify (a message or a stored object is a value); fetch and the WebSocket of the browser
-- (an answer or an event comes in any order); clocks and random identifiers (arguments); the backend
-- in Go; the other requests and forms of the admin panel; the other computations of
-- components/ClusterChart.tsx (the session profile, the largest volumes, the CVD line, the heights of
-- the lower panels).
pub mod Accounts
pub mod Admin
pub mod Candle
pub mod ClusterSearch
pub mod Drawings
pub mod History
pub mod Indicators
pub mod MarketData
pub mod Number
pub mod Pairs
pub mod Profile
pub mod Shared
pub mod Storage
pub mod Stream
pub mod Terminal
pub mod Tiers
pub mod Trading
pub mod Viewport
pub mod Workspace
