-- ===== src/Client/Pages.antt =====
-- imuaclient/query.go: `GetStakerInfos`, which reads the stakers of an asset page by page. The node
-- is a parameter: its answer to each request, by the request's number and the key it asks for.
pub mod Collected
use price_feeder.Prelude.{
  ℕ, zero, suc, List, [], ◌∷◌, ◌++◌, Option, none, some, Bool, if◌then◌else◌, Bytes, ◌==◌, nat_eq,
}
use price_feeder.Stakers.Reset.{OracleStaker, NstVersion}

-- The fields that the code reads of `QueryStakerInfosResponse`; a nil key ends the list.
pub record Page : Type 0 where
  pub staker_infos : List OracleStaker
  pub version : ℕ
  pub feeds : NstVersion
  pub next_key : Option Bytes

-- A page, or an error with its status: whether it is `codes.NotFound`.
pub data Answer : Type 0 where
  page : Page → Answer
  query_error : (not_found : Bool) → Answer

-- What `GetStakerInfos` returns; the version may be nil. `unfinished` stands for a loop that goes on.
pub data StakerList : Type 0 where
  got : List OracleStaker → Option NstVersion → StakerList
  get_error : (not_found : Bool) → StakerList
  unfinished : StakerList

module _ (ask : ℕ → Bytes → Answer) where
  -- The loop with the requests so far, the key, the stakers so far and the version of the first page.
  -- A version that differs from it ends the loop with nothing.
  unfoldable pub next_pages :
      ℕ → ℕ → Bytes → List OracleStaker → Option (ℕ × NstVersion) → StakerList
  next_pages zero n key ret first = unfinished
  next_pages (suc fuel) n key ret first = elim (ask n key) [
    | query_error not_found ↦ get_error not_found
    | page p ↦
        let kept : ℕ × NstVersion = elim first [ none ↦ (p.version, p.feeds) | some v ↦ v ] in
        let all = ret ++ p.staker_infos in
        if kept.0 == p.version
        then elim p.next_key [
          | none ↦ got all (some kept.1)
          | some next ↦ next_pages fuel (suc n) next all (some kept)
        ]
        else got [] none
  ]

  -- `connected` tells whether the gRPC connection is there.
  unfoldable pub get_staker_infos : Bool → ℕ → StakerList
  unfolding next_pages
  get_staker_infos connected fuel =
      if connected then next_pages fuel 0 [] [] none else get_error Bool.false
