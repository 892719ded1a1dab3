-- ===== src/Lib.antt =====
-- devbrowser: a development browser that a host program opens, reloads and closes.
--
-- The program drives one Chrome through the `chromedp` package. The host calls `Open`,
-- `OpenBrowser`, `CloseBrowser`, `RestartBrowser` and, from its file watcher, `Reload`. The state is
-- one Go struct that all of these share, `DevBrowser`; the key-value store of the host keeps what
-- survives a run.
--
-- Files, and the code that they model:
--   Browser     the struct `DevBrowser`, its first value and the logger (devbrowser.go)
--   Session     the calls of Chrome, in order, as a value, and the operations on a session:
--     Session/Close      `shutdownChrome`, `CloseBrowser` (CloseBrowser.go) and
--                        `monitorBrowserClose` (devbrowser.go)
--     Session/Context    `buildAllocatorOptions`, `CreateBrowserContext` (context.go)
--     Session/Emulation  `applyDeviceEmulation`, `resolveDevice` (mcp-management.go)
--     Session/Reload     `Reload`, `ProcessPendingReload` (devbrowser.go)
--     Session/Open       `Open`, `OpenBrowser` (OpenBrowser.go) and the captures that it installs
--     Session/Opening    the goroutine of `Open` step by step, with reloads between its steps
--     Session/Restart    `RestartBrowser`, `BrowserStartUrlChanged` (devbrowser.go), `Execute` (tui.go),
--                        and sequences of calls as a step relation
--     Session/Resize     `BrowserPositionAndSizeChanged` (position.go)
--     Session/Stale      what a manual close leaves for the next opening
--     Session/Setters    `SetLog`, `SetHeadless`, `SetTestMode` and the getters (devbrowser.go, tui.go)
--     Session/Trace      the order of the calls
--   Geometry    the size of the window (geometry_utils.go, monitor_detection.go, window_autofit.go)
--   Config      the stored configuration (config.go, monitor_geometry.go)
--   Position    the text of position and size (position.go)
--   Selection   the history of selected elements (selection_history.go)
--   Logs        the entries of the logs (devbrowser.go, models.go)
--   Capture     the listeners of console, network, errors and interception, and their tools
--               (console_logs.go, mcp-console.go, mcp-network.go, mcp-errors.go, mcp-intercept.go);
--               Capture/Intercept/Listener has the goroutines of intercepted requests
--   Profiles    the clean-up of profile directories (profiles.go)
--     Profiles/Directory the choice and the marking of the profile (profile_dir.go), and the choice
--                        of the executable (execpath.go)
--     Profiles/Size      `dirSize` (profiles.go)
--     Profiles/Locked    `profileLocked` (context.go) and `processAlive` (process_unix.go)
--   Inspect     the selected elements of the page: the listener, the capture, the report and the tool
--               (selection_capture.go, mcp-selected.go, source_locator.go)
--   Screenshot  the captures, the path of a screenshot and its tool (screenshot_utils.go,
--               mcp-screenshot.go), the tool that emulates a device and the size of its
--               viewport (mcp-management.go)
--     Screenshot/Copy    the tool `browser_screenshot` and `writeToClipboard` (clipboard_utils.go)
--   Models      the arguments of the tools: their definitions (models.go) and the methods that are
--               generated for them (models_orm.go), in Models/Actions, /Controls, /Reads, /Records
--   Page        the tools that act on the page, the actions and the guard that they share:
--     Page/Quote         `strconv.Quote`, and how a literal reads back in the page
--     Page/Reading       mcp-structure.go, mcp-styles.go, mcp-source.go, mcp-asset.go,
--                        mcp-inspect.go, mcp-storage.go, mcp-evaluate-js.go
--     Page/Interaction   click, fill and swipe (mcp-interaction.go)
--     Page/Navigation    mcp-navigation.go and `CurrentURL` (devbrowser.go)
--     Page/Performance   the report of mcp-performance.go
--     Page/Audit         the report of mcp-audit.go
--     Page/Tools         these tools by name; Page/Safety what holds of all of them, and
--                        Page/Opening what they do while the browser opens
--   Registry    names, arguments and actions of all tools (mcp-tools.go)
--   Text        texts as lists of code points, with what the code uses of `strings`, `strconv`,
--               `fmt` and `path/filepath`
--   Prelude     shared names, Go's integers, lists and the results of calls
--   Tests       the theorems at concrete inputs
--
-- How the code is read. A context, a cancel function and an allocator are the number of the browser
-- context that they belong to, and `none` is nil. A call of `chromedp` is a value of `Call` that is
-- appended to the calls so far; what Chrome answers is an argument, the record `Chrome`, which may
-- look at all calls before. A `Store` and the DevTools protocol of the window (`WindowApi`) are
-- arguments too, with what is documented of a store as the hypotheses `IsStore`. A run-time panic
-- is `Outcome.panic`, a Go error is its message. `int` is a signed number, and the one sum that can
-- leave 64 bits wraps around. What a page, the disk and other packages answer to the tools are the
-- records `PageApi`, `ScreenApi` and `Disk`, over a world that each call may change. Paths are those
-- of Unix.
--
-- Fuel: `format_nat n` divides at most `n` + 1 times, which is enough for `n` digits. The steps of an
-- opening are counted by the caller; nine are enough for the way without an error.
--
-- The tools that act on the page are runs of `Step`: each action of `chromedp` with the context and
-- the deadline that it is given is a value that is appended to the actions so far, and the first
-- error ends the run. A script is its source, or its name and what the code formats into it; the
-- scripts that are long (`GetStructureJS`, `GetPerformanceJS`, `GetAuditMobileJS`, `InspectElementJS`
-- and the helpers of inspect_helpers.go) are only names here. Floating-point numbers, `net/url` and
-- the printable characters outside ASCII are parameters, and so is the reader of fields that the
-- package `model` gives to `DecodeFields`.
--
-- Not modelled: the mutexes, the waits, what the scripts do in the page, and the methods of the
-- argument models that only call the package `model`. The answers of the marking of a profile and of
-- the look-up of the executable are fields of `Chrome` in a session. In Session/Open the steps of the
-- goroutine of `Open` stand in one sequence; Session/Opening takes them apart. A goroutine that
-- captures a selection is one step. The goroutines of intercepted requests take their turns in any
-- order (Capture/Intercept/Listener), in a browser that stays open. `strings.ToLower` is modelled
-- for ASCII. The packages in cdproto, chromedp, ws, httphead, pool, humanize, intern, pixelmatch,
-- win, sysutil and screenresolution are copies of other projects.
pub mod Prelude
pub mod Text
pub mod Selection
pub mod Logs
pub mod Browser
pub mod Geometry
pub mod Config
pub mod Position
pub mod Session
pub mod Capture
pub mod Inspect
pub mod Models
pub mod Page
pub mod Profiles
pub mod Registry
pub mod Screenshot
pub mod Tests
