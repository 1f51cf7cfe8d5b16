-- ===== src/Tests.antt =====
-- Runs of the model on small concrete inputs.
mod World
mod StockTests
mod OrderTests
mod EventTests
mod OtherTests
mod Query
mod RelayTests
mod SagaTests
mod CompletionTests
mod ConsumerTests
mod GatewayTests
mod HandlerTests
mod AuthTests
mod StartupTests
