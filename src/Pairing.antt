-- ===== src/Pairing.antt =====
-- What the pairing engines take and return, src/core/pairing/pairing.types.ts. Ids are only
-- compared for equality, so they are numbers. Points are tenths, as the database column
-- Decimal(4, 1) holds them; a set of ids is the list of them.
pub mod RoundRobin
pub mod Swiss
use Prim.Native.String.{String}
use farzin.Prelude.{ℕ, Bool, Option, List, not, ◌&&◌, leb}

abbrev pub PlayerId : Type 0
PlayerId = ℕ

pub data Color : Type 0 where
  white black : Color

pub data ColorPreferenceStrength : Type 0 where
  absolute strong mild none_yet : ColorPreferenceStrength

pub record ColorPreference : Type 0 where
  pub color : Option Color
  pub strength : ColorPreferenceStrength

pub data FloatDirection : Type 0 where
  no_float down up : FloatDirection

pub data ByeType : Type 0 where
  pairing_allocated requested zero_point : ByeType

pub record PlayerPairingState : Type 0 where
  pub player_id : PlayerId
  pub pairing_number : ℕ
  pub rating : ℕ
  pub points : ℕ
  pub opponent_ids : List PlayerId
  pub color_history : List Color
  pub float_history : List FloatDirection
  pub has_received_bye : Bool
  pub is_withdrawn : Bool
  pub joined_at_round : ℕ

pub record PairingRequest : Type 0 where
  pub round_id : ℕ
  pub round_number : ℕ
  pub total_rounds : ℕ
  pub players : List PlayerPairingState
  pub seed : Option ℕ
  pub initial_color : Option Color

pub record Pairing : Type 0 where
  pub board_number : ℕ
  pub white_player_id : PlayerId
  pub black_player_id : PlayerId

pub record ByeAssignment : Type 0 where
  pub player_id : PlayerId
  pub type : ByeType
  pub points : ℕ

pub record PairingResult : Type 0 where
  pub pairings : List Pairing
  pub byes : List ByeAssignment
  pub engine_version : String

-- Why a `PairingImpossibleError` was thrown.
pub data Impossible : Type 0 where
  too_few_players round_out_of_schedule too_few_active duplicate_pairing_number : Impossible

-- `isActive`, the same in both engines.
unfoldable pub is_active : PlayerPairingState → ℕ → Bool
is_active player round_number = not player.is_withdrawn && leb player.joined_at_round round_number
