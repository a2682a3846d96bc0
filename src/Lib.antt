-- ===== src/Lib.antt =====
-- A model of the JavaScript parts of ic_govmind, a platform for decentralised organisations
-- (DAOs) on the Internet Computer: the proxy that asks a language model about proposals, and
-- the web frontend.
--
-- The parts and how they interact:
-- * The proxy (ic_govmind_api_proxy/server.js) has four POST handlers. Each tests the
--   request, writes a prompt, asks the model's service, cuts a JSON object out of the answer
--   and replies with a record that has every field. Proxy.Handlers models the handlers,
--   Proxy.Host their replies and the call of the service, Proxy.Prompts the prompts,
--   Proxy.Extract the cutting, and Proxy.Analysis, Proxy.Debate and Proxy.Draft the parsers.
-- * ic_govmind_frontend/src/utils/units.js turns amounts of tokens into base units and back,
--   for the forms and the tables of the frontend. Units models it.
-- * The frontend (ic_govmind_frontend/src) calls the canisters of the platform.
--   hooks/useAuthClient.jsx keeps the session (Auth). pages/CreateDaoPage.jsx creates a DAO
--   (CreateDao.Form the data and the edits, CreateDao.Wizard the steps, CreateDao.Request the
--   records that are sent, CreateDao.Submit the calls).
-- * The tabs of a DAO are components/tabs: TreasuryTab.jsx (Treasury.Wallet,
--   Treasury.Transfer), CommitteesTab.jsx (Committees.Kinds, Committees.Form), MembersTab.jsx
--   (Members) and ProposalsTab.jsx (Proposals).
-- * services/aiService.js, hooks/useProposals.js, hooks/backendHooks.js (Assistant.Service)
--   and pages/ProposalCopilotPage.jsx (Assistant.Copilot) ask the analyzer canister for
--   drafts and debates and create proposals.
-- * pages/DaoInfoPage.jsx, components/DaoTabs.jsx and components/tabs/CanisterTab.jsx are the
--   page around the tabs (DaoPage); hooks/daoHooks.js reads what they show (Queries), and
--   utils/formatters.js shortens it (Formatters).
-- * components/ProposalAnalysisPanel.jsx, pages/ProposalListPage.jsx and
--   pages/ProposalsPage.jsx send proposals to the analyzer (Assistant.Analysis) and show what
--   comes of it (Assistant.Panel). The steps of a page are a relation, since clicks come in
--   between the parts of an asynchronous handler.
-- * pages/ProposalCopilotPage.jsx leads from an idea to a proposal: its handlers
--   (Assistant.Copilot) and its steps, with the handlers cut at their await
--   (Assistant.Copilot.Flow).
-- * pages/ProposalsPage.jsx sends proposals from a modal (Assistant.Submission) and shows
--   what the analyzer answers (Assistant.Submission.Results).
-- * The three pages lay out the report of an analysis (Assistant.Report), with the scores as
--   doubles.
-- * hooks/useSnsGovernance.js reads the proposals (Sns), their votes (Sns.Votes) and the list
--   of SNS DAOs (Sns.Listing), and pages/UserDashboardPage.jsx pages through that list
--   (Sns.Dashboard). The list comes from get_sns_canisters of src/ic_govmind_sns/src/lib.rs
--   (Sns.Registry), the one operation of a canister that is modelled, so that the page can be
--   stated in front of it.
-- * hooks/useTokenPrices.js asks for the prices (Treasury.Prices) that
--   components/tabs/TreasuryTab.jsx multiplies the balances by (Treasury.Assets);
--   Treasury.Health is the page's analysis. They compute with doubles, which are the record
--   Treasury.Doubles; IsRounded has the laws of IEEE 754 that the shares need, and
--   Treasury.Whole runs them over whole numbers.
-- * pages/CommitteeDashboardPage.jsx shows one committee (Committees.Dashboard).
-- * formatBulletPoints of pages/ProposalsPage.jsx, pages/ProposalListPage.jsx and
--   components/ProposalAnalysisPanel.jsx takes the points of an analysis apart (Bullets).
--
-- Base has the names, list lemmas and results that all parts share, and Js what the sources
-- use of the language: texts are lists of UTF-16 units (Js.Text), integers (Js.Integer),
-- decimal texts (Js.Decimal), and values that come from JSON (Js.Value). Numbers of the
-- proxy, JSON.parse and the words of the engine's errors are a parameter, the record Engine.
-- A computation that may throw is an Outcome.
--
-- Loops over lists are structural. The one loop on fuel is the while loop of the debate
-- parser: it runs four rounds at most, and Proxy.Debate.Laws proves that they are enough from
-- any start. A balance or an amount is a natural number without bound, as a BigInt is; times
-- in days go through doubles, whose rounding is a parameter that is exact up to 2^53.
--
-- Candid options are Option, but the arrays that the agent makes of them where the source
-- reads the array itself (a committee's active, the answer of get_proposal); a canister's
-- method is a function that returns its answer or throws. A handler is a function from the
-- state of its page to the state that it ends with: the flags that are set only while a call
-- is under way, and timers, are left out. Not modelled are the markup, the charts, what is
-- only logged, express and its middleware, and the canisters themselves but for that list.
mod Base
pub mod Js
pub mod Assistant
pub mod Auth
pub mod Committees
pub mod CreateDao
pub mod DaoPage
pub mod Formatters
pub mod Members
pub mod Proposals
pub mod Queries
pub mod Sns
pub mod Bullets
pub mod Treasury
pub mod Units
pub mod Proxy
