-- ===== src/Quotes/Request.antt =====
-- The body of a quote request, as the validation pipe lets it through
-- (src/modules/quotes/application/dto). Room counts are whole numbers.
use interiors_api_client.Common.{ℕ, Option, List}
use interiors_api_client.Common.Text.{Text}
use interiors_api_client.Common.Decimal.{Decimal}

pub data CalculatorType : Type 0 where
  full_home kitchen wardrobe : CalculatorType

-- `FullHomeRoomCountsDto`
pub record Rooms : Type 0 where
  pub living : ℕ
  pub kitchen : ℕ
  pub bedroom : ℕ
  pub bathroom : ℕ
  pub dining : Option ℕ
  pub balcony : Option ℕ
  pub pooja : Option ℕ
  pub laundry : Option ℕ

-- A nested object that is absent passes the validation here and below.
pub record FullHome : Type 0 where
  pub bhk_type : Text
  pub builtup_area : Text
  pub rooms : Option Rooms
  pub package_name : Text

-- `extractTotalRunningFeet` takes a number or a text.
pub data Area : Type 0 where
  measured : Decimal → Area
  described : Text → Area

pub record Kitchen : Type 0 where
  pub package_name : Text
  pub layout : Text
  pub builtup_area : Text

pub record Dimensions : Type 0 where
  pub width_feet : Decimal
  pub height_feet : Decimal

pub record Materials : Type 0 where
  pub core : Text
  pub finish : Text

-- The package is optional.
pub record Wardrobe : Type 0 where
  pub wardrobe_type : Text
  pub length : Text
  pub height : Text
  pub package_name : Option Text
  pub dimensions : Option Dimensions
  pub materials : Option Materials
  pub accessories : List Text

-- `dto.configuration` with `dto.calculatorType`; the configuration may be absent.
pub data Configuration : Type 0 where
  of_full_home : FullHome → Configuration
  of_kitchen : Kitchen → Configuration
  of_wardrobe : Wardrobe → Configuration
  absent : CalculatorType → Configuration

pub record Location : Type 0 where
  pub city : Text
  pub state : Text
  pub country : Text

-- `AnyQuoteRequestDto`
pub record Request : Type 0 where
  pub configuration : Configuration
  pub name : Text
  pub phone : Text
  pub email : Text
  pub location : Option Location
  pub recaptcha_token : Text

-- `dto.calculatorType`, which tells the three classes of requests apart
abbrev pub calculator_type : Configuration → CalculatorType
calculator_type (of_full_home c) = CalculatorType.full_home
calculator_type (of_kitchen c) = CalculatorType.kitchen
calculator_type (of_wardrobe c) = CalculatorType.wardrobe
calculator_type (absent t) = t
