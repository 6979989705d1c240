-- ===== src/Thesis/Store.antt =====
-- The tables that the Thesis engine uses: `ThesisRepository`, `ThesisVersionRepository` and
-- `EvidenceRepository.available_ids` of src/investment_os/infrastructure/persistence/repositories.py,
-- on the rows of persistence/models.py.
use jz_investment_os.Base.{
  ℕ, suc, Bool, true, not, ◌&&◌, ◌||◌, Option, none, some, List, [], ◌∷◌, ◌++◌, map, Outcome, ok,
  ◌>>◌, reject_if, any, select, leb, ltb, ◌==◌, if◌then◌else◌,
}
use jz_investment_os.Base.Text.{Text}
use jz_investment_os.Base.Order.{sort_by}
use jz_investment_os.Enums.{DomainErrorCode}
use jz_investment_os.Lifecycle.Transition.{UtcTimestamp}
use jz_investment_os.Thesis.Stored.{VersionRecord}

pub record InvestmentThesis : Type 0 where
  pub id : ℕ
  pub instrument_id : ℕ
  pub status : Text
  pub current_version_id : Option ℕ
  pub version : ℕ

-- The columns of `EvidenceRecord` on which availability depends.
pub record EvidenceRow : Type 0 where
  pub id : ℕ
  pub instrument_id : Option ℕ
  pub available_at : UtcTimestamp

-- The tables; versions and links stand with the newest first.
pub record ThesisStore : Type 0 where
  pub theses : List InvestmentThesis
  pub versions : List VersionRecord
  pub links : List (ℕ × ℕ)
  pub evidence : List EvidenceRow

-- What a write may raise: the codes of `ApplicationError`, a `DomainError`, and the errors of the
-- database, a violated constraint and a row that another transaction has changed.
pub data WriteError : Type 0 where
  evidence_reference_unavailable : List ℕ → WriteError
  thesis_current_version_missing : WriteError
  thesis_current_version_stale : WriteError
  thesis_version_corrupt : WriteError
  domain_error : DomainErrorCode → WriteError
  integrity_error : WriteError
  concurrency_conflict : WriteError

-- `select(...).where(test)` and `one_or_none`, on a column that is unique.
abbrev pub first_where : {A : Type 0} → (A → Bool) → List A → Option A
first_where test [] = none
first_where test (x ∷ xs) = let rest = first_where test xs in if test x then some x else rest

-- `ThesisRepository.get_by_instrument`
unfoldable pub get_by_instrument : ℕ → ThesisStore → Option InvestmentThesis
get_by_instrument instrument_id s = first_where (λ t. t.instrument_id == instrument_id) s.theses

-- `ThesisRepository.add`
unfoldable pub add_thesis : InvestmentThesis → ThesisStore → Outcome WriteError ThesisStore
add_thesis thesis s = do
  reject_if (any (λ t. t.id == thesis.id || t.instrument_id == thesis.instrument_id) s.theses)
      WriteError.integrity_error
  ok (record s { theses = thesis ∷ s.theses })

-- `ThesisRepository.update_current_version`
abbrev pub is_expected : ℕ → ℕ → InvestmentThesis → Bool
is_expected id expected_version t = t.id == id && t.version == expected_version

abbrev pub advanced : ℕ → Text → InvestmentThesis → InvestmentThesis
advanced version_id status t = record t {
  current_version_id = some version_id;
  status = status;
  version = suc t.version;
}

abbrev pub advance_rows :
    (InvestmentThesis → Bool) → ℕ → Text → List InvestmentThesis → List InvestmentThesis
advance_rows test version_id status [] = []
advance_rows test version_id status (t ∷ ts) =
    (if test t then advanced version_id status t else t) ∷ advance_rows test version_id status ts

unfoldable pub update_current_version :
    ℕ → ℕ → ℕ → Text → ThesisStore → Outcome WriteError ThesisStore
update_current_version id expected_version current_version_id status s = do
  reject_if (not (any (is_expected id expected_version) s.theses)) WriteError.concurrency_conflict
  ok (record s {
    theses = advance_rows (is_expected id expected_version) current_version_id status s.theses;
  })

-- The primary key, and `UniqueConstraint("thesis_id", "version")`.
abbrev pub clashes : VersionRecord → VersionRecord → Bool
clashes r v = v.id == r.id || v.thesis_id == r.thesis_id && v.version == r.version

-- `ThesisVersionRepository.append`, `get`, `link_evidence`
unfoldable pub append_version : VersionRecord → ThesisStore → Outcome WriteError ThesisStore
append_version r s = do
  reject_if (any (clashes r) s.versions) WriteError.integrity_error
  ok (record s { versions = r ∷ s.versions })

unfoldable pub get_version : ℕ → ThesisStore → Option VersionRecord
get_version id s = first_where (λ v. v.id == id) s.versions

unfoldable pub link_evidence : ℕ → List ℕ → ThesisStore → ThesisStore
link_evidence version_id evidence_ids s = record s {
  links = map (λ i. (version_id, i)) evidence_ids ++ s.links;
}

-- `ThesisVersionRepository.list_for_thesis`
unfoldable pub list_for_thesis : ℕ → ThesisStore → List VersionRecord
list_for_thesis thesis_id s =
    sort_by (λ v w. leb v.version w.version) (select (λ v. v.thesis_id == thesis_id) s.versions)

-- `ThesisVersionRepository.latest_as_of`; `v` comes no later than `w` in
-- `order_by(created_at.desc(), version.desc())`.
abbrev pub no_older : VersionRecord → VersionRecord → Bool
no_older v w =
    ltb w.created_at v.created_at || v.created_at == w.created_at && leb w.version v.version

abbrev pub first? : {A : Type 0} → List A → Option A
first? [] = none
first? (x ∷ xs) = some x

unfoldable pub latest_as_of : ℕ → UtcTimestamp → ThesisStore → Option VersionRecord
latest_as_of thesis_id as_of s =
    first? (
      sort_by no_older
        (select (λ v. v.thesis_id == thesis_id && leb v.created_at as_of) s.versions))

-- `EvidenceRepository.available_ids`, as the test whether an identifier is among them.
abbrev pub is_of : ℕ → Option ℕ → Bool
is_of instrument_id none = true
is_of instrument_id (some other) = other == instrument_id

unfoldable pub is_available : ℕ → UtcTimestamp → ThesisStore → ℕ → Bool
is_available instrument_id as_of s id =
    any (λ e. e.id == id && (leb e.available_at as_of && is_of instrument_id e.instrument_id))
      s.evidence
