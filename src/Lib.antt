-- ===== src/Lib.antt =====
-- Adivento is a play-money prediction market: a Rails application with a script for its pages, and a
-- design system with React components and a canvas that shows the wireframes. This library models
-- the JavaScript.
--
-- Base holds what the modules share: Boolean tests, `===`, the array methods on lists, counts, and
-- texts as lists of codes where the source looks into them by regular expressions.
-- Markup has the trees of elements that React components return, with their handlers, and what a
-- reader or a click finds in them, the propagation of clicks included.
--
-- The script of the pages, app/assets/javascripts/adivento.js, is one object `Adivento` with a part
-- per widget; `Adivento.init` boots them, and a choice of a theme dispatches `ds:theme`, which the
-- charts listen to.
--   Adivento/Sheet      `_toggle`, `open`, `close`: the scrim behind a bottom sheet and its timers
--   Adivento/Live       `live.start`, `live.stop`: the demo's interval and its random walk
--   Adivento/Theme      `theme.get`, `set`, `toggle`, `init`, `syncThemeControls`, `syncThemeColor`
--   Adivento/Segments   `segments.init`: a click on an item, its panels, the `ds:segment` event
--   Adivento/Chart      `chart.line`, `chart.spark`; Chart/Listeners: `chart.init` and its listener
--   Adivento/Orderbook  `orderbook.render`
--   Adivento/Ticket     `ticket.init`: the events of a bet ticket and `recalc`
--   Adivento/Boot       `Adivento.init` over the theme and the charts together
-- A widget's state is a record of what its code reads and writes in the document; a listener or a
-- timer is a function on that record, and a session is a list of events. Delays are lists of
-- pending callbacks; the number of a random draw is an argument.
--
-- The canvas, docs/design/wireframes/v2/design-canvas.jsx, shows sections of artboards.
--   Canvas/Order    `dcFlatten`, the registries of `DesignCanvas`, the order of `DCSection`, and its
--                   `onReorder`, `onDelete` and `onRename`
--   Canvas/Persist  the state of `DesignCanvas`, `patchSection`, the read of the sidecar file and the
--                   debounced writes
--   Canvas/Drag     `onGripDown`, `move` and `up` of `DCArtboardFrame`
--   Canvas/Focus    the keys, the arrows and the dropdown of `DCFocusOverlay`
--   Canvas/Menu     the menu of `DCArtboardFrame`
--   Canvas/Export   `dcExport`. Export/Fonts: `scrapeCss` and `walk`, the search for font rules, with
--                   the fetches that are under way and their answers in any order; Export/Clone:
--                   `cloneStyled` and the pictures; Export/Urls: the addresses in font rules and
--                   backgrounds; Export/File: the name, the page, the SVG and the download
--   Canvas/View     what the components draw: View for `DCEditable`, `DCPostIt`, `DCSection` and
--                   `DCViewport`, View/Frame for `DCArtboardFrame`, View/Overlay for
--                   `DCFocusOverlay`, View/Root for `DesignCanvas`
--   Canvas/Viewport `DCViewport`: `apply`, `zoomAt`, `onWheel`, the gestures, the drag of the
--                   background, the messages of the host, and the viewport in `localStorage`
-- `Persist` keeps the sections that `Order` arranges; the patches of `Order` are functions on a
-- section that `Persist` applies. React's effects run after the change that they depend on, with the
-- cleanup of the effect before them.
--
-- The React components, docs/design/system/react, are another rendering of the same widgets.
--   React/Theme     `ThemeProvider` of theme.jsx
--   React/Charts    `points2path`, `Chart` and `Sparkline` of charts.jsx
--   React/Atoms     the components of atoms.jsx
--   React/Market    `OrderBook`, `PoolBar` and `SettlementSteps` of market.jsx; Market/Cards:
--                   `MarketCard`, `PriceBoxes`, `StatStrip` and `Callout`; Market/Ticket: `BetTicket`
--
-- The demo of the design system, docs/design/system/assets, has an older adivento.js.
--   System/Theme    its `theme`; the other parts are the application's
--
-- The wireframes, docs/design/wireframes/v2, are drawn with a kit of parts.
--   Wireframe/Kit   wireframe-kit.jsx; Kit/Chrome has its bars and Kit/Charts its charts
--   Wireframe/Dark  wireframe-dark.jsx
--   Wireframe/Alt   the screens of wireframes-alt.jsx
--
-- Numbers. Number.antt is an interface of the operations of JavaScript's numbers, with the facts of
-- IEEE 754 that are relied on; Number/Exact.antt shows that the interface can be met. Where the
-- source handles whole numbers only, they are native natural numbers. Arrays are lists, a text is a
-- native string, `none` is `undefined`, `null` or -1 as the source has it. Objects that are used as
-- maps have only their own keys: ids that are names of `Object.prototype` are left out.
--
-- Storage and host. A write of the viewport to `localStorage` says in its event whether the storage
-- accepts it, and a write of the sidecar file whether the host does; both refusals are caught in the
-- code, and leave what is stored as it was. `JSON.stringify` and `JSON.parse` of the viewport are
-- operations with a law that is a hypothesis: JSON gives back finite numbers. A write of the sidecar
-- settles at once. The memo of `DCSection` is left out: its key joins the ids by `|`, so it differs
-- from the model only for ids that contain `|`.
--
-- Loops are recursion on the list that the code walks, or on the rounds that are left: the loop of
-- `goSection` has n - 1 rounds, which is the bound in the code. The digits of a number are computed
-- with one more round than the number, which has fewer digits. The loop over the pending fetches has
-- no fuel: its answers are a relation, `Run`, and their number is bounded by that of the addresses.
--
-- Not modelled: style sheets, the layout and the pointer events of the browser, which are arguments of
-- the functions, as are the network, the serialisation of an element and the drawing of an image in
-- an export; the reset of the copy's shadow and radius, which is a style that the browser parses;
-- the screens of docs/design/wireframes/v1, which are markup made of the kit, and its shared files and
-- docs/design/system/dist, which are copies; the tests under e2e; and the Ruby side,
-- app/services first, which talks to the database.
pub mod Base
pub mod Number
pub mod Adivento
pub mod Canvas
pub mod Markup
pub mod React
pub mod System
pub mod Wireframe
