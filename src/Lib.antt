-- ===== src/Lib.antt =====
-- Verification of the web client of isachore, the TypeScript sources under frontend/src.
--
-- The client keeps a session (who is signed in, in which households, with which roles), shows
-- pages that the roles gate, and lists most things in one kind of server-driven table, whose state
-- stands in the query string and whose settings stay in the browser's storage from one visit to
-- the next. The parts meet in that storage: the session claims and clears the table settings, the
-- tables write them, the appearance stands beside them under other keys. The two chore feeds list
-- what is to be done and close it; the chore form creates, clones and edits a chore.
--
-- Files and sources:
--   Types         frontend/src/lib/types.ts and the identifiers of theme/context.ts and
--                 i18n/languages.ts: the payloads that the modelled parts read.
--   Permissions   frontend/src/lib/permissions.ts, every function. Ladder, Households and
--                 Assignable hold the proofs.
--   Web           what the browser supplies: numbers as texts (Number; Tally is an instance),
--                 URLSearchParams (Params), localStorage with its failures (Store), JSON (Value),
--                 whole numbers with the infinities and NaN (Whole).
--   Table         frontend/src/components/data-table/useServerTable.ts: deriveState,
--                 applyOwnedParams and toApiQuery here, readSettings, writeSettings and
--                 clearSettings in Settings, clearTableSettings and claimTableSettings in Owner,
--                 the hook itself in Hook, the controls of DataTable.tsx beside it in View. Url,
--                 Query, Settings/Laws, Owner/Laws, Owner/Sessions and the files under Hook hold
--                 the proofs; those of View stand in it.
--   Auth          frontend/src/auth/AuthProvider.tsx with setTheme, setAccent and changeLanguage of
--                 theme/ThemeProvider.tsx and i18n/i18n.ts. Appearance, Clean, Steps, Sessions and
--                 Refused hold the proofs.
--   Routes        safeReturnPath of frontend/src/lib/routes.ts; Return holds the proofs.
--   Chores        repeatLabel of frontend/src/lib/chores.ts; Days holds the proofs.
--   Api           what becomes of a response in frontend/src/lib/api.ts, and
--                 frontend/src/lib/validationError.ts in Issue and Validation; Lines and Errors hold
--                 the proofs.
--   Feed          what frontend/src/pages/Home.tsx and frontend/src/pages/Unscheduled.tsx have in
--                 common: filters, requests, completions under way. Newest, Shown, Lock, Requests,
--                 Weight and Quiet hold the proofs.
--   Home          frontend/src/lib/home.ts, and Home.tsx itself in Page. Groups, Page/Asked and
--                 Page/Feeding hold the proofs.
--   Unscheduled   frontend/src/lib/unscheduled.ts and Unscheduled.tsx; Recency and Credit hold the
--                 proofs.
--   ChoreForm     frontend/src/components/chores/ChoreForm.tsx; the initial values of
--                 pages/ChoreEdit.tsx, pages/ChoreCreate.tsx and cloneState of pages/Chores.tsx in
--                 Seeds. Bounds, Assignee, Stored and RoundTrip hold the proofs.
--   ChoreCreate   frontend/src/pages/ChoreCreate.tsx; Pickers holds the proofs.
--   ChoreEdit     the loading in frontend/src/pages/ChoreEdit.tsx; Own holds the proofs.
--   Login         frontend/src/pages/Login.tsx and frontend/src/lib/sso.ts; Ways holds the proofs.
--   Guards        the routes of frontend/src/App.tsx and the guards RequireAuth, RequireRole,
--                 RequireOwner and RequireAdmin of frontend/src/components; Open holds the proofs.
--   Appearance    frontend/src/theme/themes.ts, the readers and effects of theme/ThemeProvider.tsx and
--                 i18n/i18n.ts, i18n/languages.ts, and frontend/public/theme-init.js; Reading,
--                 Reload and Prepaint hold the proofs.
--   Listing       the filters of frontend/src/pages/Chores.tsx, Tags.tsx, History.tsx and Logs.tsx:
--                 what they have in common, over Table.Hook, with a Pruner for what differs
--                 (Households, History, Logs); Dead, Names, Kept, Pruned and Emptied hold the
--                 proofs.
--   Invitations   frontend/src/components/households/HouseholdInvitations.tsx; Course sets it beside
--                 the server; Commute, Air, Rows and Agreement hold the proofs.
--   Members       frontend/src/components/households/HouseholdMembersTable.tsx, over Table.Hook and
--                 Permissions; Allowed holds the proofs.
--   Timezones     frontend/src/lib/timezones.ts; Direct holds the proofs.
--   TwoFactor     frontend/src/components/TwoFactorSettings.tsx; Once holds the proofs.
--   ApiToken      frontend/src/components/ApiTokenSettings.tsx; Once holds the proofs.
--   Pickers       AssigneeMultiSelect.tsx and TagMultiSelect.tsx of frontend/src/components/chores;
--                 Chosen holds the proofs.
--   Base          the names and lemmas that all share: tests, lists, signed numbers, sorting.
--
-- How it is modelled. State is passed explicitly: a component is a record of what it holds between
-- two renders, and each handler, effect and answer is a function on it. A call that may throw
-- returns an Option beside the state that it leaves. Events come in any order, in lists or in step
-- relations; the handlers of one answer run to the end before the next event. Loops are structural,
-- so nothing runs on fuel. Ids, counts and page numbers are natural numbers; a number in a text is
-- read by a Numerals, which gives a number back up to 2 ^ 53 - 1, the largest that the program's
-- numbers hold exactly, and Math.trunc(Number(text)) is a Truncation with the same promise. The
-- parsers of JSON and of URLs and the translations are parameters. How many answers of the server
-- Feed/Quiet follows is counted by Feed/Weight, from the requests that are open.
--
-- Not modelled: markup and the generated UI kit, the requests themselves, Intl and dates, the
-- service worker, the debounced text filters, the pages of statistics, profile, tags, households and
-- users, the forms of households, tags and users, the rich text editor, which is a library's, and
-- the server, which is Python.
pub mod Base
pub mod Types
pub mod Permissions
pub mod Web
pub mod Table
pub mod Auth
pub mod Routes
pub mod Chores
pub mod Api
pub mod Feed
pub mod Home
pub mod Unscheduled
pub mod ChoreForm
pub mod ChoreCreate
pub mod Login
pub mod Guards
pub mod ChoreEdit
pub mod Appearance
pub mod Listing
pub mod Invitations
pub mod Members
pub mod Timezones
pub mod TwoFactor
pub mod ApiToken
pub mod Pickers

