-- ===== src/Financing.antt =====
-- financing/src/lib.rs: offers on invoices, their acceptance, negotiation and schedules.
pub mod State
pub mod Offers
pub mod Acceptance
pub mod Negotiation
pub mod Rounds
pub mod Callbacks
pub mod Schedules
pub mod Settings
pub mod Views
pub mod Books
pub mod BookSteps
pub mod Calls
pub mod Steps
pub mod SettlementSteps
pub mod OfferSteps
pub mod SettingSteps
pub mod History
pub mod Paging
pub mod Proposals
pub mod Settling
pub mod Consent
pub mod Coverage
pub mod Installments
pub mod Tests
