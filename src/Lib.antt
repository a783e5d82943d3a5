-- ===== src/Lib.antt =====
-- A verification library for the loan reporting service of this repository: what it says of a loan
-- on a date, and how it computes that.
--
-- The program answers inquiries about loans that were moved from an old core system (MSO) to a new
-- one (Fincloud) at a cutoff date. internal/loan holds exact amounts, dates and the shared
-- records. internal/contractual reconstructs a flat-rate loan from its opening balance at the
-- cutoff: it builds the contractual schedule, selects the repayments that count, accrues due rows
-- and allocates payments. internal/position decides which source answers, and calls the calculator
-- for flat loans from before the cutoff. internal/snapshot, internal/slik and internal/lps report
-- over those positions.
--
-- Files. Loan/Money.antt models internal/loan/money.go (Add, Sub, Cmp, DivInt, MinMoney ... are
-- add, sub, cmp, div_int, min_money), Loan/Date.antt internal/loan/date.go, Loan/Model.antt
-- internal/loan/model.go, Common/Results.antt internal/loan/errors.go. Contractual/State.antt,
-- Repayments.antt, Schedule.antt, Timeline.antt and Calculator.antt model the functions of
-- internal/contractual/calculator.go: allocate and finish, effectiveRepayments, BuildSchedule,
-- validateTimeline and collectabilityAt, Calculate. Position/Schedule.antt, Service.antt and
-- Resolve.antt model internal/position/service.go: normalizeContractSchedule and validSchedule,
-- the Service, resolvePosition and GetLoanPosition. Slik/Store.antt and Slik/Progress.antt model
-- internal/slik/repository.go: the stored jobs, and the statements on them as the steps of a
-- store. Slik/Manager.antt models of internal/slik/manager.go how a run starts and ends (run but
-- for its workers, and finish), safePath, OpenOutput and safeFailure. Login/Lockout.antt models
-- the count of failed logins in internal/browserauth/security.go. Access.antt is who may use the
-- application. Its Tables.antt holds the tables that the packages share; Users.antt models
-- internal/user/username.go and repository.go, Sessions.antt internal/auth/repository.go,
-- Management.antt SetActive and ReplacePermissions of internal/features/users/service.go and
-- repository.go, Bootstrap.antt the registry and Bootstrap of internal/access, Login.antt Login,
-- ResolveSession and Logout of internal/browserauth/service.go, which ask Lockout first.
-- Audit.antt models Append of internal/audit/audit.go, which changes of users and permissions end
-- with. Access/Managers.antt has the transactions of the application as steps, Access/Granted.antt
-- what a replacement of permissions does, Access/Entries.antt and Book.antt the sessions as a book
-- of tokens that the statements of Sessions.antt refine. Lps.antt is the report of internal/lps:
-- Csv.antt reads the tables as newCSVReader sets up the reader, Codes.antt is codes.go,
-- Sources.antt and Accounts.antt are accounts.go (buildDSN, buildDK), and Fields.antt,
-- Customers.antt (parseCustomers, buildDN), Live.antt (buildLiveDN, completeMissingDN),
-- Details.antt (downloadLoanDetails) and Generator.antt (Generate) are generator.go.
-- Fincloud/Decimal.antt, Contract.antt and Resolve.antt model internal/fincloud/loan.go
-- (NormalizeDecimal, mapLoan, and ResolveLoan, GetLoan, resolveAlternate), Loan/Money/Decimal.antt
-- ParseMoney of internal/loan/money.go. Platform/Pagination.antt models
-- internal/platform/pagination/pagination.go. Snapshot/Refresh.antt models Refresh of
-- internal/snapshot/service.go and the statements of internal/snapshot/repository.go that it runs,
-- and Snapshot/Columns.antt what the columns keep of a row, amounts with ten decimals
-- (Money.Value). Common holds tests, lists, sorting, integers and texts; the modules below each of
-- these prove its laws, and Examples applies them to concrete inputs.
--
-- How the code is modelled. A function that returns a value and an error returns a Result; errors
-- keep what errors.Is distinguishes, not their text. A *big.Rat is a fraction with a positive
-- denominator; its sums are exact, and laws are proved in units of a common denominator
-- (Loan/Money/Units.antt). Integers are unbounded: the code's values are far from 64 bits. Texts
-- are lists of bytes, of which strings.TrimSpace takes the ASCII spaces. Loops are structural
-- recursion over the lists that they read, except the one over the chunks of a refresh, whose fuel
-- is the number of rows, as each chunk takes at least one, and the digits of a number, whose fuel
-- is the number. slices.SortStableFunc is insertion sort. The stores and remote systems (Fincloud,
-- MSO, DWH, snapshot) are fields of the record Service, so that theorems hold for all of them; the
-- current date is an argument. A transaction over the tables runs alone and changes nothing where
-- it fails; what others do between the two statements of a login is an argument of Login. The
-- generator's workers answer in any order, which is an argument too; its floats and its services
-- are the fields of records. How the database compares texts and keeps instants, and which
-- removals of files succeed, are such fields as well. Locations are such that every day has a
-- midnight.
--
-- Not modelled: String and ExactDecimal of amounts, and Format but for the ten decimals of a
-- column; reading the snapshot and parsing its report; submitting a job, its workers, its
-- retention and its workbook; the request for the rates, the archive's format and a cancellation
-- in internal/lps; the HTTP client of internal/fincloud, the queries of internal/mso and
-- internal/dwh; listing users and reading the audit log; navigation and settings; cookies, HTTP
-- handlers, templates, database drivers and logging, which are input and output.
pub mod Access
pub mod Audit
pub mod Common
pub mod Contractual
pub mod Examples
pub mod Fincloud
pub mod Loan
pub mod Login
pub mod Lps
pub mod Platform
pub mod Position
pub mod Slik
pub mod Snapshot
