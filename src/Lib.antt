-- ===== src/Lib.antt =====
-- A verification library of the parts of FRP Manager that are written in JavaScript. It is about
-- the reader and writer of configuration files of frp, panel/templates/assets/js/toml.js, and about
-- the receiver of anonymous statistics, logic.js and worker.js of tools/stats-worker.
--
-- The panel edits the files of frps and frpc as text. `parseToml` reads a file into the values of
-- its connection part and the blocks [[proxies]] and [[visitors]]; `proxyFromBlock` and
-- `visitorFromBlock` turn blocks into the entries of the interface; `generateProxy` and
-- `generateVisitor` write an entry back. `mergeConnection` writes a changed connection part into
-- the text of the file, line by line: `scanConnection` finds the lines of its keys, and each key is
-- changed where it stands, inside an inline table too.
--
-- `prep` makes one form of the texts that are read, inline arrays of blocks included, and
-- `composeClientConfig` writes a whole file of a client again from its connection part, its tables
-- and the entries of the interface.
--
-- The receiver counts the pings of panels by day, with limits by address and by day, and shows the
-- counters behind a password. A request waits for the database between its statements, where
-- others go on.
--
-- `connectStatus` of panel/templates/assets/js/store.js keeps a WebSocket open that brings the state
-- of the instances, and has a periodic check run while there is none.
--
-- The page of the tunnels, panel/templates/assets/js/pages/tunnels.js, loads the file of an instance,
-- has its entries edited in dialogs that check them, and saves the file that composeClientConfig
-- makes of them.
--
-- The form of the connection part, panel/templates/assets/js/pages/config.js, is built from a schema
-- and the values of the file; a save has mergeConnection write the keys of the fields that changed.
--
-- The page panel/templates/assets/js/pages/firewall.js edits the list of rules of the firewall, which
-- the panel applies.
--
-- Texts are lists of UTF-16 code units. Files:
--   Base         numbers, lists, options, and the string methods of the language
--   Toml/Scan    splitComment, stripComment, keyEnd, multilineClose
--   Toml/Brackets, Toml/KeyPath
--                bracketDepth, openDepth, scanEnd, splitTop; keyPath
--   Toml/Str, Toml/Unquote
--                str; unescapeBasic, multilineValue and unquote, where `none` is the RangeError of
--                String.fromCodePoint
--   Toml/Ports   portSpecCount, isPortRange, rangeNames
--   Toml/Hosts   unbracket, joinHostPort, fixHostPort
--   Toml/Match, Toml/Headers
--                the expressions for template lines; blockKind, isBlockSub
--   Toml/Inline  inlineValueEnd, inlineItems, inlineValues
--   Toml/Block, Toml/Value, Toml/Parse
--                parseToml: its blocks, the values of a line, and the loop over the lines
--   Toml/Tunnel, Toml/FromBlock, Toml/Generate
--                the entries, splitPair, frpcNames, visitorNames; extrasOf, intText,
--                proxyFromBlock, visitorFromBlock; annotate, generateProxy, generateVisitor
--   Toml/Lines, Toml/Edit
--                the lines of a text; inlineDrop, inlineAdd, inlineEmpty, inlineSet
--   Toml/Connection
--                tplDelta, tplClosing, scanConnection
--   Toml/Merge   generatedRaws, entryValue, inlineOpen, sharedSegs (Raws), and mergeConnection: where
--                lines are added (Places), the keys (Keys), the text that is written (Write)
--   Toml/Pairs   pairProxies
--   Toml/Entries tunnelNameOk, randomPort, newProxy, newVisitor
--   Toml/Connect generateServer, generateClient
--   Toml/Blocks  multilineStringLines and findBlock; prep, expandInline, inlineLines (Prep),
--                stripBlocks, dropTrailingComments, extractBlocks (Strip), tablesAfterBlocks (Tables),
--                unbracketConnection, composeClientConfig (Compose)
--   Stats/Version, Stats/Secret, Stats/Access
--                logic.js: pingKey and countedVersion; sameSecret; privateKey, basicPassword,
--                retryAfter, redirectTarget
--   Stats/Table, Stats/Ping
--                worker.js: the tables of counters, and the handler of pings as a sequence of
--                statements; Stats/Ping/Limits has the requests that interleave
--   Stats/Html   render.js: escapeHtml
--   Stats/Gate   worker.js: privateGate, prive, fetch, with the table of refusals as a list of times;
--                Stats/Gate/Steps has the statements of privateGate, which interleave
--   Panel/Status connectStatus and its callbacks, with the events of the browser as steps
--   Panel/Tunnels
--                tunnels.js: validPort, portErrors, domainError (Fields); the lists of entries (Names);
--                editProxy (Editor) and editVisitor (Visitors), with the fields typed as a record and
--                the translated errors as a data type; the clicks of a user, removeProxy and
--                removeVisitor among them (Edits); load and discard (Page); isDirty and stateOf
--                (Dirty); save, loadStatus, publicEndpoint and publicCopyValue (Save)
--   Panel/Config config.js: SCHEMA (Schema), buildFields and values (Form), load and touchedKeys
--                (Touched), the values for generateServer and generateClient (Generated),
--                mergeIntoFile, save and isDirty (Save); what the browser shows of a text is a
--                parameter
--   Panel/Firewall
--                firewall.js: sourcesToText and textToSources (Sources); editRule, removeRule,
--                quickBlock, subscribe, and the choices of load and save (Rules)
--
-- A counter of characters still to be skipped takes the place of an index that the source moves
-- on. The loop of `parseToml` has the number of the lines as fuel, as each round reads a line;
-- those of inline tables have the length of the text, as each round reads a character. A
-- key in an inline table takes a part of its path from table to table, so that the length of the
-- path is fuel enough in `inlineSet`.
--
-- In Stats, JSON.parse, the decoding of base64, hashes and the parsing of URLs are parameters or
-- the form of the arguments; texts that are compared byte by byte are lists of bytes. Days are
-- numbered in place of their dates.
--
-- Fields of numbers of the connection form hold texts of digits, as their controls make them.
--
-- The answers of the panel to a page are arguments; what a browser shows of a text in a field of one
-- line or in a choice is a parameter of Panel/Config.
--
-- Not modelled: the numerals that `Number` reads beyond digits in `rangeNames`; the rows, hints and
-- dialogs of the pages, which are DOM code, and the pages of the dashboard, the settings and the
-- users; the live view, the catalogue and the verdicts of firewall.js; the router and the texts
-- (router.js, i18n.js) and the requests to the server (api.js, the rest of store.js); the cache of
-- releases and the pages of the statistics (githubReleases, render.js but escapeHtml); the backend
-- in Go.
pub mod Base
pub mod Toml
pub mod Stats
pub mod Panel
mod Tests
mod StatsTests
mod FileTests
mod PanelTests
mod TunnelsTests
mod ConfigTests
mod FirewallTests
